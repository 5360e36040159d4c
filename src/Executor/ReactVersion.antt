-- ===== src/Executor/ReactVersion.antt =====
-- `getReactNativeProjectAppVersion`: the version of the app that the project's files name. The texts
-- of its errors, which quote names of files and properties, are shortened.
use Prim.Native.Char.{Char, code}
use Prim.Native.String.{String, [], ◌∷◌}
use mathlib.Core.List.{List}
use code_push.Common.{
  ◌-◌, ℕ, ◌<>◌, Bool, false, Option, none, some, ◌==◌, ◌||◌, ◌&&◌, not, eqb, leb, is_some,
  if◌then◌else◌,
}
use code_push.Common.Json.{codes}
use code_push.Common.Text.{has_prefix, drop, length}
use code_push.Common.Promise.{error}
use code_push.Parser.{ReactOptions}
use code_push.Parser.ServerUrl.{trim}
use code_push.Executor.{Run, pure, throwing, guard, given, or_throw, ◌>>=◌, ◌>>◌}
use code_push.Executor.Project.{
  Plist, VersionName, Gradle, PropertiesFile, Appx, missing, not_text, text, without_android, one,
  several,
}
use code_push.Executor.Sdk.{Environment}
use code_push.Executor.Connection.{truthy}
use code_push.Executor.Release.{no_such_file}

abbrev is_digit : ℕ → Bool
is_digit n = leb b'0' n && leb n b'9'

-- `\d+` to the end
all_digits : List ℕ → Bool
all_digits List.[] = false
all_digits (List.◌∷◌ c List.[]) = is_digit c
all_digits (List.◌∷◌ c (List.◌∷◌ d l)) = is_digit c && all_digits (List.◌∷◌ d l)

-- `\d*\.\d+` to the end
digits_dot_digits : List ℕ → Bool
unfolding all_digits
digits_dot_digits List.[] = false
digits_dot_digits (List.◌∷◌ c l) =
    (eqb c b'.' && all_digits l) || (is_digit c && digits_dot_digits l)

abbrev starts_with_digit : List ℕ → Bool
starts_with_digit List.[] = false
starts_with_digit (List.◌∷◌ c l) = is_digit c

-- `isValidVersion`: semver's `valid`, or `/^\d+\.\d+$/`.
unfoldable pub is_valid_version : Environment → String → Bool
unfolding digits_dot_digits
is_valid_version env version =
    env.valid_version version
    || (starts_with_digit (codes version) && digits_dot_digits (codes version))

abbrev is_line_end : ℕ → Bool
is_line_end n = eqb n 10 || eqb n 13 || eqb n 8232 || eqb n 8233

-- `/.+[^-.]$/.test`: the last two characters decide.
wants_hyphen : List ℕ → Bool
wants_hyphen List.[] = false
wants_hyphen (List.◌∷◌ c List.[]) = false
wants_hyphen (List.◌∷◌ c (List.◌∷◌ d List.[])) =
    not (is_line_end c) && not (eqb d b'-' || eqb d b'.')
wants_hyphen (List.◌∷◌ c (List.◌∷◌ d (List.◌∷◌ e l))) = wants_hyphen (List.◌∷◌ d (List.◌∷◌ e l))

abbrev prefix_of : Option String → String
prefix_of none = ""
prefix_of (some prefix) = prefix

-- `command.plistFilePrefix` with its hyphen.
unfoldable pub plist_file_prefix : Option String → String
unfolding wants_hyphen
plist_file_prefix prefix =
    if wants_hyphen (codes (prefix_of prefix)) then prefix_of prefix <> "-" else prefix_of prefix

-- `known_locations.find(fileExists)`
abbrev find_file : Environment → List String → Option String
find_file env List.[] = none
find_file env (List.◌∷◌ path paths) =
    let rest = find_file env paths in if env.has_file path then some path else rest

abbrev pub version_of_plist : Plist → Run (Option String)
version_of_plist Plist.malformed = throwing (error "Please ensure it is a well-formed plist file.")
version_of_plist (Plist.parsed version) = pure version

module _ (env : Environment) (options : ReactOptions) where
  -- The plist file that is read.
  unfoldable pub plist_path : String → Run String
  unfolding plist_file_prefix
  plist_path project_name =
      let name = plist_file_prefix options.plist_file_prefix <> "Info.plist" in
      given (truthy options.plist_file)
        (or_throw
          (find_file env (
            List.◌∷◌ (env.join (List.◌∷◌ "ios" (List.◌∷◌ project_name (List.◌∷◌ name List.[]))))
              (List.◌∷◌ (env.join (List.◌∷◌ "ios" (List.◌∷◌ name List.[]))) List.[])))
          (error "Unable to find either of the plist files."))
        (λ path.
          guard (env.has_file path) (error "The specified plist file doesn't exist.") >> pure path)

  unfoldable pub ios_version : String → Run String
  unfolding plist_path is_valid_version
  ios_version project_name = do
    path ← plist_path project_name
    found ← version_of_plist (env.react.plist path)
    version ←
        or_throw (truthy found) (error "The \"CFBundleShortVersionString\" key doesn't exist.")
    guard (is_valid_version env version)
        (error "The \"CFBundleShortVersionString\" key needs to specify a valid semver string.")
    pure version

-- The first name of the array that counts as true.
abbrev first_name : List VersionName → VersionName
first_name List.[] = missing
first_name (List.◌∷◌ missing names) = first_name names
first_name (List.◌∷◌ not_text names) = not_text
first_name (List.◌∷◌ (text s) names) = text s

abbrev pub is_text : VersionName → Run String
is_text (text s) = pure s
is_text missing =
    throwing (error "The \"android.defaultConfig.versionName\" property is not a valid string.")
is_text not_text =
    throwing (error "The \"android.defaultConfig.versionName\" property is not a valid string.")

-- `versionName`, or what is thrown. An array without a name leaves null, which is no string.
abbrev pub version_name : Gradle → Run String
version_name Gradle.malformed = throwing (error "Please ensure it is a well-formed Gradle file.")
version_name without_android =
    throwing (error "The file doesn't specify a value for the version name.")
version_name (one missing) =
    throwing (error "The file doesn't specify a value for the version name.")
version_name (one not_text) = is_text not_text
version_name (one (text s)) = is_text (text s)
version_name (several names) = is_text (first_name names)

-- `replace(/"/g, "")`
without_quotes : String → String
without_quotes [] = []
without_quotes (c ∷ s) = let rest = without_quotes s in if eqb (code c) b'"' then rest else c ∷ rest

-- `replace(p, "")`: the first occurrence is removed.
unfoldable pub remove_first : String → String → String
unfolding has_prefix drop
remove_first p [] = []
remove_first p (c ∷ s) =
    if has_prefix p (c ∷ s) then drop (length p) (c ∷ s) else c ∷ remove_first p s

-- One file of the loop over the places of gradle.properties: what the property is afterwards, or an
-- error.
abbrev pub property_of : PropertiesFile → String → Run (Option String)
property_of PropertiesFile.malformed name =
    throwing (error "Please ensure it is a well-formed properties file.")
property_of (PropertiesFile.parsed properties) name = pure (properties name)

-- The loop: a file that is not there leaves the value of before, and a value that counts as true
-- ends it.
unfoldable pub search_properties :
    Environment → String → List String → Option String → Run (Option String)
search_properties env name List.[] value = pure value
search_properties env name (List.◌∷◌ path paths) value =
    let found : Run (Option String) = property_of (env.react.properties path) name >>= λ found.
    (if is_some (truthy found) then pure found else search_properties env name paths found) in
    let skipped = search_properties env name paths value in
    if env.has_file path then found else skipped

module _ (env : Environment) (options : ReactOptions) where
  abbrev gradle_or_default : Option String → String
  gradle_or_default none = env.join (List.◌∷◌ "android" (List.◌∷◌ "app" List.[]))
  gradle_or_default (some path) = path

  -- The Gradle file that is parsed.
  unfoldable pub gradle_path : Run String
  gradle_path = do
    let folder = gradle_or_default (truthy options.gradle_file)
    is_folder ← or_throw (env.is_directory folder) no_such_file
    let path =
        if is_folder then env.join (List.◌∷◌ folder (List.◌∷◌ "build.gradle" List.[])) else folder
    is_other ← or_throw (env.is_directory path) (error "Unable to find gradle file.")
    guard (not is_other) (error "Unable to find gradle file.")
    pure path

  -- A version that is no version is the name of a property.
  unfoldable pub property_version : String → Run String
  unfolding search_properties is_valid_version remove_first
  property_version reference = do
    let name = remove_first "project." reference
    found ←
        search_properties env name
          (List.◌∷◌
            (env.join (List.◌∷◌ "android" (List.◌∷◌ "app" (List.◌∷◌ "gradle.properties" List.[]))))
            (List.◌∷◌ (env.join (List.◌∷◌ "android" (List.◌∷◌ "gradle.properties" List.[])))
              List.[]))
          (some reference)
    version ← or_throw (truthy found) (error "No property of the name exists.")
    guard (is_valid_version env version)
        (error "The property needs to specify a valid semver string.")
    pure version

  unfoldable pub android_version : Run String
  unfolding gradle_path is_valid_version property_version without_quotes trim
  android_version = do
    path ← gradle_path
    name ← version_name (env.react.gradle path)
    let version = trim (without_quotes name)
    if is_valid_version env version
        then pure version
        else if starts_with_digit (codes version)
        then throwing (error "The version name needs to specify a valid semver string.")
        else property_version version

abbrev with_char : Char → Option String → Option String
with_char c none = none
with_char c (some s) = some (c ∷ s)

-- `match(/^\d+\.\d+\.\d+/)`: `dots` is how many dots are to come, and `seen` whether a digit stands
-- in front.
unfoldable pub leading_version : ℕ → Bool → String → Option String
leading_version dots seen [] = if seen && eqb dots 0 then some "" else none
leading_version dots seen (c ∷ s) =
    let digit = is_digit (code c) in
    let rest = leading_version (if digit then dots else dots - 1) digit s in
    if digit || (eqb (code c) b'.' && seen && not (eqb dots 0))
    then with_char c rest
    else if seen && eqb dots 0
    then some ""
    else none

abbrev version_match : Option String → Option String
version_match none = none
version_match (some version) = leading_version 2 false version

abbrev pub version_of_appx : Appx → Run String
version_of_appx Appx.unreadable = throwing (error "Unable to find or read the manifest.")
version_of_appx Appx.malformed = throwing (error "Unable to parse the manifest.")
version_of_appx (Appx.parsed version) =
    or_throw (version_match version) (error "Unable to parse the package version.")

module _ (env : Environment) (options : ReactOptions) where
  unfoldable pub get_react_native_project_app_version : String → String → Run String
  unfolding ios_version android_version
  get_react_native_project_app_version platform project_name =
      if platform == "ios"
      then ios_version env options project_name
      else if platform == "android"
      then android_version env options
      else version_of_appx (
          env.react.appx (
            env.join (
              List.◌∷◌ "windows"
                (List.◌∷◌ project_name (List.◌∷◌ "Package.appxmanifest" List.[])))))
