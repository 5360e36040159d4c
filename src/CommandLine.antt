-- ===== src/CommandLine.antt =====
-- cli/script/cli.ts, and what happens when the program starts: yargs reads the command line, which
-- may show the help, a command is created, and it is run.
pub mod Laws
pub mod Created
pub mod Refusal
pub mod Consent
mod Tests
use code_push.Common.{
  String, ◌<>◌, Bool, true, false, Option, none, some, List, [], ◌∷◌, ◌++◌, if◌then◌else◌,
}
use code_push.Common.Promise.{Done, Promise, resolved, rejected, pending}
use code_push.Parser.{Argv, Command}
use code_push.Parser.Create.{Libraries, create_command}
use code_push.Executor.{Stored, Effect, Run}
use code_push.Executor.Sdk.{Environment}
use code_push.Executor.Execute.{execute}

-- What is on the screen: a line, the notice of a new version, and the usage that yargs shows.
pub data Screen : Type 0 where
  line : String → Screen
  notice : Screen
  usage : Screen

-- The colours of chalk, the version of the package, and whether update-notifier has found another.
pub record Terminal : Type 0 where
  pub cyan : String → String
  pub green : String → String
  pub version : String
  pub has_update : Bool

-- `updateCheck`
abbrev pub update_check : Terminal → List Screen
update_check terminal = if terminal.has_update then notice ∷ [] else []

abbrev pub root_description : Terminal → List Screen
root_description terminal =
    line (terminal.cyan ("  _____        __  " <> terminal.green "  ___           __ "))
    ∷ line (terminal.cyan (" / ___/__  ___/ /__" <> terminal.green " / _ \\__ _____ / / "))
    ∷ line (terminal.cyan ("/ /__/ _ \\/ _  / -_)" <> terminal.green " ___/ // (_-</ _ \\"))
    ∷ line (
        terminal.cyan ("\\___/\\___/\\_,_/\\__/" <> terminal.green "_/   \\_,_/___/_//_/")
        <> "    CLI v"
        <> terminal.version)
    ∷ line (terminal.cyan "======================================")
    ∷ line ""
    ∷ line (
        "Mobile Center CodePush is a service that enables you to deploy mobile app updates "
        <> "directly to your users' devices.\n")
    ∷ update_check terminal

-- What was shown so far, and `wasHelpShown`.
pub record Help : Type 0 where
  pub screens : List Screen
  pub was_help_shown : Bool

-- `showHelp`
unfoldable pub show_help : Terminal → (root : Bool) → Help → Help
show_help terminal show_root_description help = if help.was_help_shown then help else record {
  screens =
      help.screens
      ++ (if show_root_description then root_description terminal else [])
      ++ (usage ∷ []);
  was_help_shown = true;
}

-- The calls of `showHelp` by the handlers that yargs calls on a failure, in their order.
unfoldable pub on_failures : Terminal → List Bool → Help → Help
unfolding show_help
on_failures terminal [] help = help
on_failures terminal (root ∷ failures) help =
    on_failures terminal failures (show_help terminal root help)

-- The end of the process: by itself, or by `process.exit(1)` with a message. It `waits` where the
-- promise never settles: for ever, or until an error that a callback throws ends the process.
pub data Ending : Type 0 where
  ends : Ending
  exits : (message : String) → Ending
  waits : Ending

abbrev pub ending_of : Promise Done → Ending
ending_of (resolved d) = ends
ending_of (rejected e) = exits ("[Error]  " <> e.message)
ending_of pending = waits

pub record Process : Type 0 where
  pub screens : List Screen
  pub effects : List Effect
  pub ending : Ending

-- `run`, with the help that was shown before.
unfoldable pub run : Terminal → Environment → Option Stored → Help → Option Command → Process
unfolding show_help execute
run terminal env file help none = record {
  screens = (show_help terminal false help).screens;
  effects = [];
  ending = ends;
}
run terminal env file help (some command) =
    let result = execute env file none command in
    record { screens = help.screens; effects = result.effects; ending = ending_of result.result }

-- The whole program: `command` is created when the module of the parser is loaded.
unfoldable pub process :
    Libraries → Terminal → Environment → Option Stored → (failures : List Bool) → Argv → Process
unfolding on_failures create_command run
process lib terminal env file failures argv =
    let help = on_failures terminal failures (record { screens = []; was_help_shown = false }) in
    run terminal env file help (create_command lib help.was_help_shown argv)
