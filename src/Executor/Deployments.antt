-- ===== src/Executor/Deployments.antt =====
-- `appAdd`, `deploymentAdd`, `patch` and `promote`.
pub mod Created
use code_push.Common.{
  ℕ, ◌<>◌, String, Bool, true, false, Option, none, some, List, [], ◌∷◌, ◌==◌, ◌||◌, ◌&&◌, not,
  is_some, if◌then◌else◌,
}
use code_push.Common.Promise.{Done, done, Failure, error, Promise, resolved, rejected, pending}
use code_push.Parser.{ReleaseInfo}
use code_push.Management.{AccountManager, Operation, PackageInfo}
use code_push.Management.Endpoints
use code_push.Executor.{Run, pure, throwing, guard, or_throw, catching, ◌>>=◌, ◌>>◌}
use code_push.Executor.Sdk.{Environment, call, has_status, is_set}
use code_push.Executor.Connection.{truthy}
use code_push.Executor.Prompt.{confirmed}
use code_push.Executor.Account.{os_name, platform_name}
use code_push.Executor.Listing.{deployment_list}

abbrev name_or_undefined : Option String → String
name_or_undefined none = "undefined"
name_or_undefined (some name) = name

-- `toLowerCase` of a missing value throws.
abbrev pub no_value : Failure
no_value = error "Cannot read property 'toLowerCase' of undefined"

abbrev pub package_info_of : ReleaseInfo → PackageInfo
package_info_of info = record {
  app_version = info.app_store_version;
  description = info.description;
  label = info.label;
  is_disabled = info.disabled;
  is_mandatory = info.mandatory;
  rollout = info.rollout;
}

-- The test of the loop in `patch`, for some property; what is not given is null.
abbrev has_property : ReleaseInfo → Bool
has_property info =
    is_some info.app_store_version
    || is_some info.description
    || is_some info.mandatory
    || is_some info.disabled
    || is_some info.rollout

-- `releaseErrorHandler`
unfoldable pub release_error_handler : Option Bool → Failure → Run Done
release_error_handler no_duplicate_release_error e =
    guard (is_set no_duplicate_release_error && has_status 409 e.status_code) e

module _ (env : Environment) (sdk : AccountManager) where
  unfoldable pub app_add : String → Option String → Option String → Run Done
  unfolding call os_name platform_name deployment_list
  app_add app os platform = do
    os ← or_throw os no_value
    canonical_os ← or_throw (os_name os) (
        error (
          "\"" <> os
          <> "\" is an unsupported OS. Available options are \"ios\", \"android\", and \"windows\"."))
    platform ← or_throw platform no_value
    canonical_platform ← or_throw (platform_name platform) (
        error (
          "\"" <> platform
          <> "\" is an unsupported platform. Available options are \"react-native\" and \"cordova\"."))
    call env sdk (Endpoints.add_app app canonical_os canonical_platform false)
    deployment_list env sdk app (some "table") false

  -- `command.default`
  unfoldable pub add_defaults : String → Run Done
  unfolding call deployment_list
  add_defaults app = do
    call env sdk (Endpoints.add_deployment app "Staging")
    call env sdk (Endpoints.add_deployment app "Production")
    deployment_list env sdk app (some "table") false

  unfoldable pub deployment_add : String → Option String → Option Bool → Run Done
  unfolding call add_defaults
  deployment_add app name default =
      if is_set default
      then add_defaults app
      else call env sdk (Endpoints.add_deployment app (name_or_undefined name))

  -- `label` is no property of the object that the loop looks at; `patchRelease` adds it.
  unfoldable pub patch : String → String → ReleaseInfo → Run Done
  unfolding call
  patch app deployment info = do
    guard (has_property info) (error "At least one property must be specified to patch a release.")
    call env sdk (Endpoints.patch_release app deployment info.label (package_info_of info))

  unfoldable pub run_promote : String → String → String → Option Bool → ReleaseInfo → Run Done
  unfolding call release_error_handler
  run_promote app source dest no_duplicate_release_error info =
      catching (call env sdk (Endpoints.promote app source dest (package_info_of info)))
        (release_error_handler no_duplicate_release_error)

  abbrev pub deployment_history_clear : String → String → Run Done
  deployment_history_clear app deployment =
      confirmed env sdk (Endpoints.clear_deployment_history app deployment)

  abbrev pub deployment_remove : String → String → Run Done
  deployment_remove app deployment = confirmed env sdk (Endpoints.remove_deployment app deployment)

  abbrev pub deployment_rename : String → String → String → Run Done
  deployment_rename app current new = call env sdk (Endpoints.rename_deployment app current new)

  abbrev pub rollback : String → String → Option String → Run Done
  rollback app deployment target =
      confirmed env sdk (Endpoints.rollback app deployment (truthy target))
