-- ===== src/Lib.antt =====
-- A model of the CodePush client tools: how the command line reads its arguments and hashes the
-- files of a release, and how the two SDKs talk to the server.
--
-- The parts, and the files that model them:
--   cli/script/hash-utils.ts: Manifest.antt and the modules below it. PackageManifest is a record
--     of its entries in the order of the map; generatePackageHashFromDirectory and
--     generatePackageManifestFromZip are package_hash_from_directory and manifest_from_zip;
--     Manifest/Serial is its JSON form. A stream is the list of its events, and a file system is
--     a record of functions.
--   cli/script/command-parser.ts and cli/definitions/cli.ts: Parser.antt and the modules below it.
--     createCommand is create_command, with one function for each case of its switch; the parsed
--     command line is a record Argv. What each handler declares to yargs is a Usage in
--     Parser/Usage, and Parser/Usage/Registry has the words under which it is reached.
--   sdk/script/acquisition-sdk.ts: Acquisition.antt and the modules below it. A method gives an
--     Action: the request it sends, with the handler of the result, or what it does without one.
--   sdk/script/management-sdk.ts: Management.antt and the modules below it. A method of
--     AccountManager is the Operation that it hands to makeApiRequest, and the handler of the
--     result is a function to an Outcome. release, with the archive that it makes, is
--     Management/Release.
--   cli/script/command-executor.ts: Executor.antt and the modules below it. A command gives a Run:
--     the effects that it has, in their order, and the promise that it returns; what the outside
--     answers is in a record Environment. execute is Executor/Execute, with the connection file
--     and the SDK before it as arguments, and the commands are Executor/Login, Account, Listing,
--     Deployments, Release, Cordova and React; Executor/ReactVersion is
--     getReactNativeProjectAppVersion. Executor/Good has the rules by which a property of effects
--     goes from the parts of a command to the whole.
--     Executor/Tables has what is printed of lists: a table as it is handed to cli-table, with the
--     texts of its cells.
--   cli/script/commands/debug.ts: Executor/Debug.antt.
--   cli/script/cli.ts: CommandLine.antt, with showHelp. A Process has what is on the screen, the
--     effects and the end of the program; process goes from the command line to that end.
-- The command line builds commands by the parser, runs them by the executor, and sends its requests
-- and releases by the management SDK; apps ask for updates by the acquisition SDK. The hashing
-- utilities compute the hash by which the content of a release is known.
--
-- Common holds what the parts share: Common/Text and Common/Dict are JavaScript's strings and maps,
-- Common/Utf16 and Common/Sort its order and sort, Common/Object its objects with the order of
-- their keys, Common/Json and Common/JsonParse the JSON texts that are written and read, Common/Uri
-- encodeURIComponent, Common/Promise the promises of q, Common/Split and Common/Lines a text cut at
-- a character, Common/ParseInt and Common/Precision the texts of numbers, and Common/Double the
-- quotients of doubles. A text is a sequence of Unicode characters, so a lone surrogate does not
-- occur.
--
-- SHA-256, the file system, yauzl, yazl, superagent, rimraf, the parsers of project files,
-- parse-duration and backslash are parameters or data that the definitions take: the events,
-- responses and errors that these libraries hand over. So are moment, chalk, wordwrap,
-- update-notifier and toLocaleString, as fields of records. Numbers are exact and not negative,
-- but for the percentage of active devices, which is computed in doubles.
--
-- Loops run over lists or count down, but for four that take fuel: the digits of n have the fuel
-- n; the exponent of toPrecision has the dividend or the divisor; the double nearest to p / q has
-- 52 + q doublings or p halvings, since q is at most 2 ^ q; and JSON.parse has twice the length of
-- its text and two more, since no way into the text has more steps. That this is enough for every
-- text that a manifest is written as is part of its round trip.
--
-- Not modelled: what yargs does with the declarations, of which the parsed command line and the
-- calls of the failure handlers are data; the single messages that a command logs; the progress of
-- an upload; and the tasks of gulp. The executor takes the SDK's methods from its Environment, so
-- that its theorems hold for whatever the server answers. Printing is taken not to throw.
pub mod Common
pub mod Manifest
pub mod Acquisition
pub mod CommandLine
pub mod Parser
pub mod Management
pub mod Executor
