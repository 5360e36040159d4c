-- ===== src/Executor/Tests/Releases.antt =====
-- Runs of single commands, and the theorems on them at concrete data.
use code_push.Common.{
  ◌<>◌, ◌≡◌, ◌↔◌, refl, String, Bool, true, false, none, some, [], ◌∷◌, ◌++◌, ◌⊎◌, ◌==◌, is_some,
  if◌then◌else◌, arith,
}
use code_push.Common.Text.{to_lower}
use code_push.Common.Promise.{Failure, done, resolved, rejected, error}
use code_push.Management.{named, posting}
use code_push.Management.Endpoints
use code_push.Executor.{calls, runs}
use code_push.Executor.Sdk.{Environment, call, patched}
use code_push.Executor.Account.{os_name, platform_name}
use code_push.Executor.Deployments.{deployment_add}
use code_push.Executor.Deployments.Created.{
  deployment_add_iff, deployment_add-rejected, names-canonical,
}
use code_push.Executor.Release
use code_push.Executor.Release.{ReleaseCommand, is_binary_or_zip, upload_of}
use code_push.Executor.Cordova
use code_push.Executor.React
use code_push.Executor.React.Cleanup.{EndsByDeleting, release_react-rejected}
use code_push.Executor.Project.{Appx}
use code_push.Executor.ReactVersion.{leading_version, version_of_appx}
use code_push.Executor.Debug.{
  debug_command, get_number_of_available_devices, normalize_log_message, process_log_data,
}
use code_push.Executor.Debug.Logs.{debug_command_iff, process_log_data-append}
use code_push.Executor.Good.{All}
use code_push.Executor.Good.Uploads.{
  OfUploads, IsChecked, IsBuilt, IsBundled, release-IsChecked, release_cordova-IsBuilt,
  release_react-IsBundled,
}
use code_push.Executor.Outcome.{IsAccepted, release_iff}
use code_push.Executor.Tests.{conflict, manager, environment, working, info}

abbrev folder_release : ReleaseCommand
folder_release = record {
  app_name = "App";
  package_path = "www";
  deployment_name = some "Staging";
  no_duplicate_release_error = none;
  info = info;
}

release_iff_example :
    (Release.release environment manager folder_release).result ≡ resolved done ↔ (
      (is_binary_or_zip "www" ≡ false)
      × (environment.valid_range (some "1.2.3") ≡ true)
      × (is_some (environment.is_directory "www") ≡ true)
      × (((known : Bool) × (environment.key_is_valid manager true ≡ resolved known)
            × IsAccepted none (resolved done))
          ⊎ ((e : Failure) × (environment.key_is_valid manager true ≡ rejected e)
              × IsAccepted none (rejected e))))
release_iff_example = release_iff environment manager folder_release

release-IsChecked_example :
    All
      (OfUploads (IsChecked environment manager folder_release))
      (Release.release environment manager folder_release).effects
release-IsChecked_example = release-IsChecked environment manager folder_release

abbrev cordova_release : Cordova.CordovaCommand
cordova_release = record {
  app_name = "App";
  platform = "iOS";
  deployment_name = some "Staging";
  no_duplicate_release_error = none;
  build = some true;
  is_release_build_type = none;
  info = info;
}

release_cordova-IsBuilt_example :
    All
      (OfUploads (IsBuilt working cordova_release))
      (Cordova.release_cordova working manager cordova_release).effects
release_cordova-IsBuilt_example = release_cordova-IsBuilt working manager cordova_release

abbrev react_release : React.ReactCommand
react_release = record {
  app_name = "App";
  platform = "ios";
  deployment_name = some "Staging";
  no_duplicate_release_error = none;
  info = info;
  options = record {
    bundle_name = none;
    development = none;
    entry_file = none;
    gradle_file = none;
    plist_file = none;
    plist_file_prefix = none;
    sourcemap_output = none;
    output_dir = some "out";
  };
}

release_react-IsBundled_example :
    All
      (OfUploads (IsBundled working react_release))
      (React.release_react working manager react_release).effects
release_react-IsBundled_example = release_react-IsBundled working manager react_release

-- The deployment does not exist.
release_react_fails :
    (React.release_react environment manager react_release).result ≡ rejected conflict
unfolding React.release_react React.bundle_and_release Release.validate_deployment
    Release.with_advice call patched
release_react_fails = ground arith

release_react-rejected_example :
    EndsByDeleting "out" (React.release_react environment manager react_release)
release_react-rejected_example =
    release_react-rejected environment manager react_release conflict release_react_fails

abbrev half_working : Environment
half_working = record environment {
  send = λ sdk operation. elim operation.body [
    | some (named name) ↦ if name == "Staging" then resolved done else rejected conflict
    | _ ↦ rejected conflict
  ];
}

second_deployment_fails : deployment_add half_working manager "App" none (some true) ≡ record {
  effects =
      calls manager (Endpoints.add_deployment "App" "Staging")
      ∷ calls manager (Endpoints.add_deployment "App" "Production")
      ∷ [];
  result = rejected conflict;
}
unfolding Endpoints.add_deployment posting
second_deployment_fails = deployment_add-rejected half_working manager "App" none conflict refl refl

canonical_names_test :
    (to_lower "Android" ≡ to_lower "ANDROID")
    × (os_name "Android" ≡ some "Android")
    × (to_lower "Cordova" ≡ to_lower "cordova")
    × (platform_name "Cordova" ≡ some "Cordova")
unfolding os_name platform_name to_lower
canonical_names_test = names-canonical "ANDROID" "cordova" "Android" "Cordova" refl refl

adb_test :
    (debug_command environment (some "android")).effects ≡ runs ("adb" ∷ "logcat" ∷ []) ∷ [] ↔ (
      (true ≡ true)
      × ((output : String) × (environment.debug.adb_devices ≡ some output)
          × (get_number_of_available_devices output ≡ 1)))
adb_test = debug_command_iff environment

one_device_is_found :
    get_number_of_available_devices "List of devices attached\nemulator-5554\tdevice\n" ≡ 1
unfolding get_number_of_available_devices
one_device_is_found = refl

log_parts_test :
    process_log_data normalize_log_message "12:00" ("[CodePush] a" <> "\nb")
    ≡ process_log_data normalize_log_message "12:00" "[CodePush] a"
      ++ process_log_data normalize_log_message "12:00" "b"
log_parts_test = process_log_data-append normalize_log_message "12:00" "[CodePush] a" "b"

-- A version of Windows has four parts.
appx_version : (version_of_appx (Appx.parsed (some "1.20.3.0"))).result ≡ resolved "1.20.3"
unfolding leading_version
appx_version = refl

no_appx_version :
    (version_of_appx (Appx.parsed (some "1.20"))).result
    ≡ rejected (error "Unable to parse the package version.")
unfolding leading_version
no_appx_version = refl

added_deployments_test :
    ((deployment_add working manager "App" none (some true)).result ≡ resolved done ↔ (
      (working.send manager (Endpoints.add_deployment "App" "Staging") ≡ resolved done)
      × (working.send manager (Endpoints.add_deployment "App" "Production") ≡ resolved done)
      × (working.send manager (Endpoints.get_deployments "App") ≡ resolved done)))
    × ((deployment_add working manager "App" (some "Beta") none).result ≡ resolved done
        ↔ (working.send manager (Endpoints.add_deployment "App" "Beta") ≡ resolved done))
added_deployments_test = deployment_add_iff working manager "App" "Beta" none
