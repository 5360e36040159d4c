-- ===== src/Executor/Cordova.antt =====
-- `releaseCordova`.
use code_push.Common.{◌<>◌, String, Bool, Option, none, some, [], ◌∷◌, ◌==◌, if◌then◌else◌}
use code_push.Common.Text.{to_lower}
use code_push.Common.Promise.{Done, done, Failure, error}
use code_push.Parser.{ReleaseInfo}
use code_push.Management.{AccountManager}
use code_push.Executor.{Run, pure, throwing, guard, or_throw, doing, runs, ◌>>=◌, ◌>>◌}
use code_push.Executor.Project.{ConfigXml}
use code_push.Executor.Sdk.{Environment, is_set}
use code_push.Executor.Connection.{truthy}
use code_push.Executor.Prompt.{throw_for_invalid_semver_range}
use code_push.Executor.Release.{release, validate_deployment}

-- `IReleaseCordovaCommand`
pub record CordovaCommand : Type 0 where
  pub app_name : String
  pub platform : String
  pub deployment_name : Option String
  pub no_duplicate_release_error : Option Bool
  pub build : Option Bool
  pub is_release_build_type : Option Bool
  pub info : ReleaseInfo

abbrev no_config : Failure
no_config = error (
    "Unable to find or read \"config.xml\" in the CWD. The \"release-cordova\" command must be "
    <> "executed in a Cordova project folder.")

abbrev bad_config : Failure
bad_config = error (
    "Unable to parse \"config.xml\" in the CWD. Ensure that the contents of \"config.xml\" is "
    <> "valid XML.")

-- The version of the app in config.xml, or what is thrown.
abbrev pub config_version : ConfigXml → Run (Option String)
config_version ConfigXml.unreadable = throwing no_config
config_version ConfigXml.malformed = throwing bad_config
config_version ConfigXml.without_widget = throwing (error "Cannot read property '$' of undefined")
config_version (ConfigXml.parsed version) = pure version

-- config.xml is read and parsed even where its version is not used.
abbrev pub is_parsed : ConfigXml → Run Done
is_parsed ConfigXml.unreadable = throwing no_config
is_parsed ConfigXml.malformed = throwing bad_config
is_parsed _ = pure done

-- `releaseTargetVersion`
abbrev pub target_version : Option String → ConfigXml → Run (Option String)
target_version (some version) config = pure (some version)
target_version none config = config_version config

abbrev pub cordova_command : CordovaCommand → String
cordova_command c =
    if is_set c.build
    then if is_set c.is_release_build_type then "build --release" else "build"
    else "prepare"

unfoldable pub output_folder : Environment → String → Option String
output_folder env platform =
    let folder = env.join (env.working_directory ∷ "platforms" ∷ platform ∷ []) in
    if platform == "ios"
    then some (env.join (folder ∷ "www" ∷ []))
    else if platform == "android"
    then some (env.join (folder ∷ "assets" ∷ "www" ∷ []))
    else none

unfoldable pub cordova_cli : Environment → Option String
cordova_cli env =
    if env.cordova.has_tool "cordova"
    then some "cordova"
    else if env.cordova.has_tool "phonegap"
    then some "phonegap"
    else none

module _ (env : Environment) (sdk : AccountManager) where
  unfoldable pub release_cordova : CordovaCommand → Run Done
  unfolding validate_deployment to_lower output_folder cordova_cli throw_for_invalid_semver_range
      release
  release_cordova c = do
    validate_deployment env sdk c.app_name c.deployment_name
    folder ←
        or_throw (output_folder env (to_lower c.platform))
          (error "Platform must be either \"ios\" or \"android\".")
    cli ← or_throw (cordova_cli env) (
        error (
          "Unable to "
          <> cordova_command c
          <> " project. Please ensure that either the Cordova or PhoneGap CLI is installed."))
    doing (runs (cli ∷ cordova_command c ∷ to_lower c.platform ∷ "--verbose" ∷ []))
    guard (env.cordova.succeeds (cli ∷ cordova_command c ∷ to_lower c.platform ∷ "--verbose" ∷ []))
        (error (
          "Unable to "
          <> cordova_command c
          <> " project. Please ensure that the CWD represents a Cordova project and that the \""
          <> to_lower c.platform
          <> "\" platform was added by running \""
          <> cli
          <> " platform add "
          <> to_lower c.platform
          <> "\"."))
    is_parsed env.cordova.config
    version ← target_version (truthy c.info.app_store_version) env.cordova.config
    throw_for_invalid_semver_range env version
    release env sdk (record {
      app_name = c.app_name;
      package_path = folder;
      deployment_name = c.deployment_name;
      no_duplicate_release_error = c.no_duplicate_release_error;
      info = record c.info { app_store_version = version };
    })
