-- ===== src/Executor/Good/Releases.antt =====
-- `releaseReact` and the debug command: their effects are allowed, and they settle.
use code_push.Common.{ℕ, String, Option, none, some, List, [], ◌∷◌}
use code_push.Parser.{ReactOptions}
use code_push.Management.{AccountManager}
use code_push.Executor.{Effect, uploads, Upload}
use code_push.Executor.Project.{
  Plist, VersionName, Gradle, PropertiesFile, Appx, PackageJson, missing, not_text, text, one,
  several, without_android,
}
use code_push.Executor.Sdk.{Environment}
use code_push.Executor.Prompt.{throw_for_invalid_semver_range}
use code_push.Executor.Good.{IsGood, Permits}
use code_push.Executor.Good.Rules.{good}
use code_push.Executor.Good.Commands.{validate_deployment-IsGood, release-IsGood}
use code_push.Executor.ReactVersion.{
  version_of_plist, plist_path, ios_version, is_text, version_name, property_of, search_properties,
  gradle_path, property_version, android_version, version_of_appx,
  get_react_native_project_app_version,
}
use code_push.Executor.React.{
  ReactCommand, project_name, entry_file, app_version, delete_folder,
  create_empty_temp_release_folder, check_exit, run_react_native_bundle_command, bundle_and_release,
  release_react,
}
use code_push.Executor.Debug.{debug_command, log_process, android_log_process, ios_log_process}

module _ (P : Effect → Type 0) (env : Environment) (sdk : AccountManager)
    (permits : Permits P sdk) where
  version_of_plist-IsGood : (file : Plist) → IsGood P env (version_of_plist file)
  version_of_plist-IsGood Plist.malformed = search good
  version_of_plist-IsGood (Plist.parsed version) = search good

  ios_version-IsGood :
      (options : ReactOptions) (name : String) → IsGood P env (ios_version env options name)
  unfolding ios_version plist_path
  ios_version-IsGood options name = search (good, version_of_plist-IsGood) depth 10

  is_text-IsGood : (name : VersionName) → IsGood P env (is_text name)
  is_text-IsGood missing = search good
  is_text-IsGood not_text = search good
  is_text-IsGood (text s) = search good

  version_name-IsGood : (gradle : Gradle) → IsGood P env (version_name gradle)
  version_name-IsGood Gradle.malformed = search good
  version_name-IsGood without_android = search good
  version_name-IsGood (one missing) = search good
  version_name-IsGood (one not_text) = search good
  version_name-IsGood (one (text s)) = search good
  version_name-IsGood (several names) = is_text-IsGood _

  property_of-IsGood :
      (file : PropertiesFile) (name : String) → IsGood P env (property_of file name)
  property_of-IsGood PropertiesFile.malformed name = search good
  property_of-IsGood (PropertiesFile.parsed properties) name = search good

  search_properties-IsGood :
      (name : String) (paths : List String) (value : Option String)
      → IsGood P env (search_properties env name paths value)
  unfolding search_properties
  search_properties-IsGood name [] value = search good
  search_properties-IsGood name (path ∷ paths) value =
      let later = search_properties-IsGood name paths in
      search (good, property_of-IsGood, later) depth 8

  android_version-IsGood : (options : ReactOptions) → IsGood P env (android_version env options)
  unfolding android_version gradle_path property_version
  android_version-IsGood options =
      search (good, version_name-IsGood, search_properties-IsGood) depth 20

  version_of_appx-IsGood : (file : Appx) → IsGood P env (version_of_appx file)
  version_of_appx-IsGood Appx.unreadable = search good
  version_of_appx-IsGood Appx.malformed = search good
  version_of_appx-IsGood (Appx.parsed version) = search good

  get_react_native_project_app_version-IsGood :
      (options : ReactOptions) (platform name : String)
      → IsGood P env (get_react_native_project_app_version env options platform name)
  unfolding get_react_native_project_app_version
  get_react_native_project_app_version-IsGood options platform name =
      search (good, ios_version-IsGood, android_version-IsGood, version_of_appx-IsGood)

  pub project_name-IsGood : (file : PackageJson) → IsGood P env (project_name file)
  unfolding project_name
  project_name-IsGood PackageJson.unreadable = search good
  project_name-IsGood (PackageJson.parsed name is_react_native) = search good depth 8

  pub entry_file-IsGood :
      (given : Option String) (platform : String) → IsGood P env (entry_file env given platform)
  unfolding entry_file
  entry_file-IsGood none platform = search good
  entry_file-IsGood (some path) platform = search good

  pub app_version-IsGood :
      (c : ReactCommand) (platform name : String) → IsGood P env (app_version env c platform name)
  unfolding app_version throw_for_invalid_semver_range
  app_version-IsGood c platform name =
      search (good, get_react_native_project_app_version-IsGood) depth 8

  check_exit-IsGood : (exit_code : Option ℕ) → IsGood P env (check_exit exit_code)
  check_exit-IsGood none = search good
  check_exit-IsGood (some exit_code) = search good

  pub release_react-IsGood :
      (c : ReactCommand)
      → ((u : Upload) → P (uploads sdk u))
      → IsGood P env (release_react env sdk c)
  unfolding release_react bundle_and_release create_empty_temp_release_folder delete_folder
      run_react_native_bundle_command
  release_react-IsGood c h =
      search
        (
          good, validate_deployment-IsGood, project_name-IsGood, entry_file-IsGood,
          app_version-IsGood, check_exit-IsGood, release-IsGood,
        )
        depth 40

  pub debug_command-IsGood : (platform : Option String) → IsGood P env (debug_command env platform)
  unfolding debug_command log_process android_log_process ios_log_process
  debug_command-IsGood platform = search good depth 20
