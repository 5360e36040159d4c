-- ===== src/Executor/React.antt =====
-- `releaseReact` and `runReactNativeBundleCommand`.
pub mod Cleanup
use code_push.Common.{
  ℕ, ◌<>◌, String, Bool, true, false, Option, none, some, List, [], ◌∷◌, ◌++◌, ◌==◌, eqb, not,
  is_some, is_null, is_truthy, if◌then◌else◌, ◌||◌,
}
use code_push.Common.Text.{to_lower}
use code_push.Common.Promise.{Done, done, Failure, error}
use code_push.Common.Decimal.{to_decimal}
use code_push.Parser.{ReleaseInfo, ReactOptions}
use code_push.Management.{AccountManager}
use code_push.Executor.{
  Run, pure, throwing, settling, guard, given, or_throw, doing, runs, creates, deletes, catching,
  ◌>>=◌, ◌>>◌,
}
use code_push.Executor.Project.{PackageJson}
use code_push.Executor.Sdk.{Environment, is_set}
use code_push.Executor.Connection.{truthy}
use code_push.Executor.Prompt.{throw_for_invalid_semver_range}
use code_push.Executor.Release.{ReleaseCommand, release, validate_deployment}
use code_push.Executor.ReactVersion.{get_react_native_project_app_version}

-- `IReleaseReactCommand`
pub record ReactCommand : Type 0 where
  pub app_name : String
  pub platform : String
  pub deployment_name : Option String
  pub no_duplicate_release_error : Option Bool
  pub info : ReleaseInfo
  pub options : ReactOptions

-- A value, or another one where it is missing.
abbrev or_default : Option String → String → String
or_default none s = s
or_default (some t) s = t

-- `bundleName`, for a platform that is known.
unfoldable pub bundle_name : Option String → String → Option String
bundle_name given platform =
    if platform == "ios"
    then some (or_default given "main.jsbundle")
    else if platform == "android" || platform == "windows"
    then some (or_default given ("index." <> platform <> ".bundle"))
    else none

abbrev no_project : Failure
no_project = error (
    "Unable to find or read \"package.json\" in the CWD. The \"release-react\" command must be "
    <> "executed in a React Native project folder.")

-- The `try` block on package.json: every error of it becomes one error. An empty name counts as
-- none.
unfoldable pub project_name : PackageJson → Run String
project_name PackageJson.unreadable = throwing no_project
project_name (PackageJson.parsed name is_react_native) = do
  name ← or_throw (truthy name) no_project
  guard is_react_native no_project
  pure name

-- `fileDoesNotExistOrIsDirectory`
unfoldable pub file_does_not_exist_or_is_directory : Environment → String → Bool
file_does_not_exist_or_is_directory env path = elim (env.is_directory path) [
  | none ↦ true
  | some is_directory ↦ is_directory
]

-- `entryFile`
unfoldable pub entry_file : Environment → Option String → String → Run String
unfolding file_does_not_exist_or_is_directory
entry_file env (some path) platform =
    guard (not (file_does_not_exist_or_is_directory env path))
      (error ("Entry file \"" <> path <> "\" does not exist."))
    >> pure path
entry_file env none platform = do
  let first = "index." <> platform <> ".js"
  let path : String = if file_does_not_exist_or_is_directory env first then "index.js" else first
  guard (not (file_does_not_exist_or_is_directory env path))
      (error ("Entry file \"" <> first <> "\" or \"index.js\" does not exist."))
  pure path

-- `appVersionPromise`
unfoldable pub app_version : Environment → ReactCommand → String → String → Run String
unfolding throw_for_invalid_semver_range get_react_native_project_app_version
app_version env c platform name =
    given (truthy c.info.app_store_version)
      (get_react_native_project_app_version env c.options platform name)
      (λ version. throw_for_invalid_semver_range env (some version) >> pure version)

-- `createEmptyTempReleaseFolder`, and `deleteFolder` where its promise is waited for.
unfoldable pub delete_folder : Environment → String → Run Done
delete_folder env folder = do doing (deletes folder); settling (env.delete folder)

unfoldable pub create_empty_temp_release_folder : Environment → String → Run Done
unfolding delete_folder
create_empty_temp_release_folder env folder = do
  delete_folder env folder
  guard (env.can_create folder) (error "EEXIST: file already exists")
  doing (creates folder)

abbrev node_arguments : Option (List String) → List String
node_arguments none = []
node_arguments (some arguments) = arguments

abbrev sourcemap_arguments : Option String → List String
sourcemap_arguments none = []
sourcemap_arguments (some path) = "--sourcemap-output" ∷ path ∷ []

abbrev boolean_text : Bool → String
boolean_text true = "true"
boolean_text false = "false"

-- `reactNativeBundleArgs`, behind `node`.
unfoldable pub bundle_arguments :
    Environment → String → Bool → String → String → String → Option String → List String
bundle_arguments env bundle development entry folder platform sourcemap =
    node_arguments env.node_arguments
    ++ (env.join ("node_modules" ∷ "react-native" ∷ "local-cli" ∷ "cli.js" ∷ [])
        ∷ "bundle"
        ∷ "--assets-dest"
        ∷ folder
        ∷ "--bundle-output"
        ∷ env.join (folder ∷ bundle ∷ [])
        ∷ "--dev"
        ∷ boolean_text development
        ∷ "--entry-file"
        ∷ entry
        ∷ "--platform"
        ∷ platform
        ∷ [])
    ++ sourcemap_arguments sourcemap

-- The handler of "close": no exit code counts as 0.
abbrev pub check_exit : Option ℕ → Run Done
check_exit none = pure done
check_exit (some exit_code) =
    guard (eqb exit_code 0)
      (error ("\"react-native bundle\" command exited with code " <> to_decimal exit_code <> "."))

unfoldable pub run_react_native_bundle_command :
    Environment → String → Bool → String → String → String → Option String → Run Done
unfolding bundle_arguments
run_react_native_bundle_command env bundle development entry folder platform sourcemap = do
  let command = "node" ∷ bundle_arguments env bundle development entry folder platform sourcemap
  doing (runs command)
  exit_code ← settling (env.react.exit_code command)
  check_exit exit_code

-- The map beside the bundle, in an output folder that was given.
abbrev pub sourcemap_output : Environment → ReactCommand → String → Option String
sourcemap_output env c bundle = elim (truthy c.options.output_dir) [
  | some folder ↦ some (env.join (folder ∷ (bundle <> ".map") ∷ []))
  | none ↦ truthy c.options.sourcemap_output
]

abbrev pub output_folder : Environment → ReactCommand → String
output_folder env c =
    or_default (truthy c.options.output_dir) (env.join (env.temporary_directory ∷ "CodePush" ∷ []))

module _ (env : Environment) (sdk : AccountManager) where
  -- The chain of `releaseReact` up to the release.
  unfoldable pub bundle_and_release : ReactCommand → Run Done
  unfolding validate_deployment to_lower bundle_name project_name entry_file app_version
      create_empty_temp_release_folder delete_folder run_react_native_bundle_command release
  bundle_and_release c = do
    let platform = to_lower c.platform
    let folder = output_folder env c
    validate_deployment env sdk c.app_name c.deployment_name
    bundle ←
        or_throw (bundle_name (truthy c.options.bundle_name) platform)
          (error "Platform must be \"android\", \"ios\", or \"windows\".")
    name ← project_name env.react.package_json
    entry ← entry_file env (truthy c.options.entry_file) platform
    version ← app_version env c platform name
    create_empty_temp_release_folder env folder
    delete_folder env (env.temporary_directory <> "/react-*")
    run_react_native_bundle_command env bundle (is_set c.options.development) entry folder platform
        (sourcemap_output env c bundle)
    release env sdk (record {
      app_name = c.app_name;
      package_path = folder;
      deployment_name = c.deployment_name;
      no_duplicate_release_error = c.no_duplicate_release_error;
      info = record c.info { app_store_version = some version };
    })

  -- The two deletions at the end are not waited for.
  unfoldable pub release_react : ReactCommand → Run Done
  unfolding bundle_and_release
  release_react c =
      catching
        (bundle_and_release c
          >> (if is_some (truthy c.options.output_dir)
              then pure done
              else doing (deletes (output_folder env c))))
        (λ e. doing (deletes (output_folder env c)) >> throwing e)
