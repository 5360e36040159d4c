-- ===== src/Executor/Tests.antt =====
-- Runs of `execute`, and the theorems on it at concrete data.
mod Releases
mod Tables
use code_push.Common.{
  ℕ, ◌<>◌, ◌≡◌, ◌≢◌, ◌↔◌, ◌⊎◌, refl, inl, inr, String, Bool, true, false, Option, none, some, List,
  [], ◌∷◌, ◌++◌, ◌==◌, is_some, if◌then◌else◌, arith,
}
use code_push.Common.Text.{to_lower}
use code_push.Common.Promise.{Done, done, Failure, error, Promise, resolved, rejected}
use code_push.Management.{AccountManager, Operation, PackageInfo, named, posting}
use code_push.Management.Endpoints
use code_push.Parser.{
  Command, ReleaseInfo, ReactOptions, app_remove, login, register, whoami, logout, app_list,
  release,
}
use code_push.Executor.{
  Stored, Effect, calls, checks, uploads, saves, forgets, runs, deletes, Upload, Run, pure,
}
use code_push.Executor.Project.{
  CordovaProject, ReactProject, DebugTools, ConfigXml, PackageJson, Plist, Gradle, PropertiesFile,
  Appx, without_android,
}
use code_push.Executor.Sdk.{Environment, is_set, get_sdk, call, forgets_if_unauthorized}
use code_push.Executor.Connection.{
  deserialize_connection_info, serialize_connection_info, file_after,
}
use code_push.Executor.Prompt.{confirm}
use code_push.Executor.Account.{os_name, platform_name}
use code_push.Executor.Login.{run_login, run_logout}
use code_push.Executor.Listing
use code_push.Executor.Deployments.{deployment_add, run_promote, package_info_of}
use code_push.Executor.Deployments.Created.{deployment_add-rejected, names-canonical}
use code_push.Executor.Release
use code_push.Executor.Release.{ReleaseCommand, is_binary_or_zip, upload_of}
use code_push.Executor.Cordova
use code_push.Executor.React
use code_push.Executor.React.Cleanup.{EndsByDeleting, release_react-rejected}
use code_push.Executor.Debug.{
  debug_command, get_number_of_available_devices, normalize_log_message, process_log_data,
}
use code_push.Executor.Debug.Logs.{debug_command_iff, process_log_data-append}
use code_push.Executor.Good.{All, IsReliable, IsSettled}
use code_push.Executor.Good.Uploads.{
  OfUploads, IsChecked, IsBuilt, IsBundled, release-IsChecked, release_cordova-IsBuilt,
  release_react-IsBundled,
}
use code_push.Executor.Outcome.{
  IsAccepted, IsGone, checked_and_uploaded, run_promote_iff, release_iff, logout_iff,
}
use code_push.Executor.Execute.{gate, execute, handle_with}
use code_push.Executor.Execute.Refusal.{IsRefused, execute-IsRefused}
use code_push.Executor.Execute.Consent.{execute-SendsNothing}
use code_push.Executor.Execute.Settling.{execute-IsSettled}
use code_push.Executor.Execute.Session.{IsOf, execute-IsOf}
use code_push.Executor.Execute.Session.Machine.{Step, execute-Step}
use code_push.Executor.Execute.Session.Reached.{file_after_all, IsSavedBy, file_after_all-IsSavedBy}

abbrev pub conflict : Failure
conflict = record { message = "The uploaded package is identical"; status_code = some 409 }

abbrev pub manager : AccountManager
manager = record {
  access_key = "key";
  custom_headers = ("X-CodePush-CLI-Version", "1.0.0") ∷ [];
  server_url = "https://codepush-management.azurewebsites.net";
  proxy = none;
}

abbrev cordova : CordovaProject
cordova = record {
  has_tool = λ tool. tool == "cordova";
  succeeds = λ command. true;
  config = ConfigXml.parsed (some "1.2.3");
}

abbrev react : ReactProject
react = record {
  package_json = PackageJson.parsed (some "app") true;
  plist = λ path. Plist.parsed (some "1.2.3");
  gradle = λ path. without_android;
  properties = λ path. PropertiesFile.malformed;
  appx = λ path. Appx.unreadable;
  exit_code = λ command. resolved (some 0);
}

abbrev tools : DebugTools
tools = record {
  has_adb = true;
  adb_devices = some "List of devices attached\nemulator-5554\tdevice\n";
  is_darwin = false;
  booted_simulators = [];
  home = "/home";
  log_ends = λ command. resolved done;
}

abbrev joined : List String → String
joined [] = ""
joined (s ∷ l) = let rest = joined l in s <> "/" <> rest

-- The user answers no, requests are conflicts, the key is known, and uploads succeed.
abbrev pub environment : Environment
environment = record {
  answer = some (some "n");
  token = some " key ";
  send = λ sdk operation. rejected conflict;
  key_is_valid = λ sdk throws. resolved true;
  upload = λ sdk u. resolved done;
  deployments = λ sdk operation. [];
  valid_email = λ email. email == "a@b.c";
  valid_range = λ range. is_some range;
  valid_version = λ version. true;
  hostname = "laptop";
  cli_version = "1.0.0";
  proxies = [];
  node_arguments = none;
  working_directory = "/work";
  temporary_directory = "/tmp";
  join = joined;
  is_directory = λ path. if path == "www" then some true else some false;
  has_file = λ path. true;
  delete = λ folder. resolved done;
  can_create = λ folder. true;
  cordova = cordova;
  react = react;
  debug = tools;
}

-- Here requests succeed.
abbrev pub working : Environment
working = record environment { send = λ sdk operation. resolved done }

abbrev pub info : ReleaseInfo
info = record {
  app_store_version = some "1.2.3";
  description = some "";
  label = none;
  disabled = none;
  mandatory = none;
  rollout = some 25;
}

abbrev pub stored : Stored
stored = record {
  access_key_name = none;
  access_key = some "key";
  custom_server_url = none;
  preserve_access_key_on_logout = some false;
  proxy = none;
  no_proxy = none;
}

pub not_confirmed : confirm environment.answer ≢ resolved true
unfolding confirm
not_confirmed = ground arith

unconfirmed_test : (execute environment (some stored) none (app_remove "App")).effects ≡ []
unconfirmed_test =
    execute-SendsNothing environment (some stored) none (app_remove "App") tt not_confirmed

execute-IsRefused_example :
    IsRefused (execute environment none none whoami)
    × IsRefused (execute environment (some stored) none (login none (some "key") none none))
    × IsRefused (execute environment (some stored) none (register none none none))
execute-IsRefused_example =
    execute-IsRefused environment stored none whoami none (some "key") none none tt

pub reliable : IsReliable environment
reliable = record {
  answered = ground arith;
  send = λ sdk operation. tt;
  check = λ sdk throws. tt;
  upload = λ sdk u. tt;
  delete = λ folder. tt;
  exit = λ command. tt;
  log = λ command. tt;
}

execute-IsSettled_example : IsSettled (execute environment (some stored) none whoami).result
execute-IsSettled_example = execute-IsSettled environment (some stored) none whoami reliable

promote_conflict_test :
    (run_promote environment manager "App" "Staging" "Production" (some true) info).result
      ≡ resolved done
    ↔ IsAccepted (some true) (
        environment.send manager
          (Endpoints.promote "App" "Staging" "Production" (package_info_of info)))
promote_conflict_test =
    run_promote_iff environment manager "App" "Staging" "Production" (some true) info

logout_iff_example :
    ((run_logout environment (some stored) manager).result ≡ resolved done ↔ (
      (is_set stored.preserve_access_key_on_logout ≡ true)
      ⊎ IsGone (environment.send manager (Endpoints.remove_session "laptop"))))
    × (file_after (run_logout environment (some stored) manager).effects (some stored) ≡ none ↔ (
        (is_set stored.preserve_access_key_on_logout ≡ true)
        ⊎ IsGone (environment.send manager (Endpoints.remove_session "laptop"))))
logout_iff_example = logout_iff environment manager stored stored

execute-Step_example :
    Step environment
      (login none (some "key") none none)
      none
      (file_after (execute environment none none (login none (some "key") none none)).effects none)
execute-Step_example = execute-Step environment none none (login none (some "key") none none)

abbrev login_file : Stored
login_file = serialize_connection_info "key" true none none none

logged_in :
    (execute environment none none (login none (some "key") none none)).result ≡ resolved done
unfolding execute run_login
logged_in = refl

saved :
    file_after_all
      ((environment, login none (some "key") none none) ∷ (environment, whoami) ∷ [])
      none
    ≡ some login_file
unfolding file_after_all execute run_login Listing.whoami
saved = refl

file_after_all-IsSavedBy_example :
    IsSavedBy login_file
      ((environment, login none (some "key") none none) ∷ (environment, whoami) ∷ [])
file_after_all-IsSavedBy_example =
    file_after_all-IsSavedBy
      ((environment, login none (some "key") none none) ∷ (environment, whoami) ∷ []) login_file
      saved

used :
    (gate environment (deserialize_connection_info environment (some stored)) none whoami).result
    ≡ resolved (some manager)
unfolding gate deserialize_connection_info get_sdk
used = refl

execute-IsOf_example : All (IsOf manager) (execute environment (some stored) none whoami).effects
execute-IsOf_example = execute-IsOf environment (some stored) none manager whoami tt used
