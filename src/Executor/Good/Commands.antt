-- ===== src/Executor/Good/Commands.antt =====
-- The commands: their effects are allowed, and they settle.
use code_push.Common.{ℕ, String, Bool, Option, none, some, List, [], ◌∷◌, map}
use code_push.Parser.{ReleaseInfo}
use code_push.Management.{AccountManager, Operation}
use code_push.Executor.{Stored, Effect, uploads, Upload}
use code_push.Executor.Project.{ConfigXml}
use code_push.Executor.Sdk.{Environment, Deployment}
use code_push.Executor.Prompt.{
  confirmed, throw_for_invalid_email, throw_for_invalid_semver_range,
  throw_for_invalid_output_format,
}
use code_push.Executor.Good.{IsGood, Permits}
use code_push.Executor.Good.Rules.{AllGood, good}
use code_push.Executor.Login.{run_logout}
use code_push.Executor.Account.{
  access_key_add, access_key_patch, app_transfer, add_collaborator, remove_collaborator,
  session_remove,
}
use code_push.Executor.Deployments.{
  app_add, add_defaults, deployment_add, patch, run_promote, release_error_handler,
}
use code_push.Executor.Listing.{listing, metrics_of, deployment_list, deployment_history, whoami}
use code_push.Executor.Release.{
  ReleaseCommand, upload_of, check_and_upload, release, validate_deployment,
}
use code_push.Executor.Cordova.{
  CordovaCommand, config_version, is_parsed, target_version, release_cordova,
}

module _ (P : Effect → Type 0) (env : Environment) (sdk : AccountManager)
    (permits : Permits P sdk) where
  pub confirmed-IsGood : (operation : Operation) → IsGood P env (confirmed env sdk operation)
  unfolding confirmed
  confirmed-IsGood operation = search good

  pub access_key_add-IsGood :
      (name : String) (ttl : ℕ) → IsGood P env (access_key_add env sdk name ttl)
  unfolding access_key_add
  access_key_add-IsGood name ttl = search good

  pub access_key_patch-IsGood :
      (old_name : String) (new_name : Option String) (ttl : Option ℕ)
      → IsGood P env (access_key_patch env sdk old_name new_name ttl)
  unfolding access_key_patch
  access_key_patch-IsGood old_name new_name ttl = search good

  pub app_transfer-IsGood : (app email : String) → IsGood P env (app_transfer env sdk app email)
  unfolding app_transfer throw_for_invalid_email
  app_transfer-IsGood app email = search (good, confirmed-IsGood)

  pub add_collaborator-IsGood :
      (app email : String) → IsGood P env (add_collaborator env sdk app email)
  unfolding add_collaborator throw_for_invalid_email
  add_collaborator-IsGood app email = search good

  pub remove_collaborator-IsGood :
      (app email : String) → IsGood P env (remove_collaborator env sdk app email)
  unfolding remove_collaborator throw_for_invalid_email
  remove_collaborator-IsGood app email = search (good, confirmed-IsGood)

  pub session_remove-IsGood :
      (machine_name : String) → IsGood P env (session_remove env sdk machine_name)
  unfolding session_remove
  session_remove-IsGood machine_name = search (good, confirmed-IsGood)

  pub run_logout-IsGood :
      (connection : Option Stored) → IsGood P env (run_logout env connection sdk)
  unfolding run_logout
  run_logout-IsGood none = search good
  run_logout-IsGood (some connection) = search good depth 8

  pub listing-IsGood :
      (format : Option String) (operation : Operation)
      → IsGood P env (listing env sdk format operation)
  unfolding listing throw_for_invalid_output_format
  listing-IsGood format operation = search good

  all_metrics-IsGood :
      (app : String) (deployments : List Deployment)
      → AllGood P env (map (metrics_of env sdk app) deployments)
  unfolding metrics_of
  all_metrics-IsGood app [] = tt
  all_metrics-IsGood app (deployment ∷ deployments) =
      (search good, all_metrics-IsGood app deployments)

  pub deployment_list-IsGood :
      (app : String) (format : Option String) (show_package : Bool)
      → IsGood P env (deployment_list env sdk app format show_package)
  unfolding deployment_list throw_for_invalid_output_format
  deployment_list-IsGood app format show_package = search (good, all_metrics-IsGood) depth 8

  pub deployment_history-IsGood :
      (app deployment : String) (format : Option String)
      → IsGood P env (deployment_history env sdk app deployment format)
  unfolding deployment_history throw_for_invalid_output_format
  deployment_history-IsGood app deployment format = search good depth 8

  pub whoami-IsGood : (file : Option Stored) → IsGood P env (whoami env sdk file)
  unfolding whoami
  whoami-IsGood file = search good

  pub app_add-IsGood :
      (app : String) (os platform : Option String) → IsGood P env (app_add env sdk app os platform)
  unfolding app_add
  app_add-IsGood app os platform = search (good, deployment_list-IsGood) depth 12

  add_defaults-IsGood : (app : String) → IsGood P env (add_defaults env sdk app)
  unfolding add_defaults
  add_defaults-IsGood app = search (good, deployment_list-IsGood) depth 8

  pub deployment_add-IsGood :
      (app : String) (name : Option String) (default : Option Bool)
      → IsGood P env (deployment_add env sdk app name default)
  unfolding deployment_add
  deployment_add-IsGood app name default = search (good, add_defaults-IsGood)

  pub patch-IsGood :
      (app deployment : String) (info : ReleaseInfo)
      → IsGood P env (patch env sdk app deployment info)
  unfolding patch
  patch-IsGood app deployment info = search good

  pub run_promote-IsGood :
      (app source dest : String) (quiet : Option Bool) (info : ReleaseInfo)
      → IsGood P env (run_promote env sdk app source dest quiet info)
  unfolding run_promote release_error_handler
  run_promote-IsGood app source dest quiet info = search good

  pub release-IsGood :
      (r : ReleaseCommand) → P (uploads sdk (upload_of r)) → IsGood P env (release env sdk r)
  unfolding release check_and_upload throw_for_invalid_semver_range release_error_handler
  release-IsGood r h = search good depth 10

  pub validate_deployment-IsGood :
      (app : String) (deployment : Option String)
      → IsGood P env (validate_deployment env sdk app deployment)
  unfolding validate_deployment
  validate_deployment-IsGood app deployment = search good

  pub is_parsed-IsGood : (config : ConfigXml) → IsGood P env (is_parsed config)
  is_parsed-IsGood ConfigXml.unreadable = search good
  is_parsed-IsGood ConfigXml.malformed = search good
  is_parsed-IsGood ConfigXml.without_widget = search good
  is_parsed-IsGood (ConfigXml.parsed version) = search good

  config_version-IsGood : (config : ConfigXml) → IsGood P env (config_version config)
  config_version-IsGood ConfigXml.unreadable = search good
  config_version-IsGood ConfigXml.malformed = search good
  config_version-IsGood ConfigXml.without_widget = search good
  config_version-IsGood (ConfigXml.parsed version) = search good

  pub target_version-IsGood :
      (given : Option String) (config : ConfigXml) → IsGood P env (target_version given config)
  target_version-IsGood none config = config_version-IsGood config
  target_version-IsGood (some version) config = search good

  pub release_cordova-IsGood :
      (c : CordovaCommand)
      → ((u : Upload) → P (uploads sdk u))
      → IsGood P env (release_cordova env sdk c)
  unfolding release_cordova throw_for_invalid_semver_range
  release_cordova-IsGood c h =
      search
        (good, validate_deployment-IsGood, is_parsed-IsGood, target_version-IsGood, release-IsGood)
        depth 20
