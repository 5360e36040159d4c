-- ===== src/Executor/Release.antt =====
-- `release` and `validateDeployment`.
use Prim.Native.String.{String, [], ◌∷◌}
use code_push.Common.{
  ◌<>◌, Bool, true, Option, none, some, ◌==◌, ◌||◌, ◌&&◌, not, is_some, if◌then◌else◌,
}
use code_push.Common.Text.{to_lower, index_of}
use code_push.Common.Promise.{Done, Failure, error}
use code_push.Parser.{ReleaseInfo}
use code_push.Management.{AccountManager, PackageInfo}
use code_push.Management.Endpoints
use code_push.Executor.{Run, Upload, throwing, guard, or_throw, catching, ◌>>=◌, ◌>>◌}
use code_push.Executor.Sdk.{Environment, call, is_authenticated, upload, has_status}
use code_push.Executor.Prompt.{throw_for_invalid_semver_range}
use code_push.Executor.Deployments.{release_error_handler}

-- `IReleaseCommand`
pub record ReleaseCommand : Type 0 where
  pub app_name : String
  pub package_path : String
  pub deployment_name : Option String
  pub no_duplicate_release_error : Option Bool
  pub info : ReleaseInfo

-- The text ends with the other one.
unfoldable pub is_suffix : String → String → Bool
is_suffix p [] = p == ""
is_suffix p (c ∷ s) = p == (c ∷ s) || is_suffix p s

-- `isBinaryOrZip`
unfoldable pub is_binary_or_zip : String → Bool
unfolding is_suffix to_lower
is_binary_or_zip path =
    is_suffix ".zip" (to_lower path)
    || is_suffix ".apk" (to_lower path)
    || is_suffix ".ipa" (to_lower path)

abbrev pub metadata_of : ReleaseInfo → PackageInfo
metadata_of info = record {
  app_version = none;
  description = info.description;
  label = none;
  is_disabled = info.disabled;
  is_mandatory = info.mandatory;
  rollout = info.rollout;
}

abbrev pub upload_of : ReleaseCommand → Upload
upload_of r = record {
  app_name = r.app_name;
  deployment_name = r.deployment_name;
  path = r.package_path;
  target_version = r.info.app_store_version;
  metadata = metadata_of r.info;
}

abbrev pub no_such_file : Failure
no_such_file = error "ENOENT: no such file or directory"

-- The error that is thrown, with the advice that is added to its message.
unfoldable pub with_advice : Failure → Failure
unfolding index_of
with_advice e =
    if has_status 404 e.status_code && is_some (index_of "Deployment" e.message)
    then record e {
      message =
          e.message <> "\nUse \"code-push deployment list\" to view any existing deployments and "
          <> "\"code-push deployment add\" to add deployment(s) to the app.";
    }
    else e

abbrev deployment_text : Option String → String
deployment_text none = "undefined"
deployment_text (some name) = name

module _ (env : Environment) (sdk : AccountManager) where
  -- The chain of promises of `release`, behind its checks.
  unfoldable pub check_and_upload : ReleaseCommand → Run Done
  unfolding is_authenticated upload
  check_and_upload r = do known ← is_authenticated env sdk true; upload env sdk (upload_of r)

  unfoldable pub release : ReleaseCommand → Run Done
  unfolding is_binary_or_zip throw_for_invalid_semver_range check_and_upload release_error_handler
  release r = do
    guard (not (is_binary_or_zip r.package_path)) (
        error (
          "It is unnecessary to package releases in a .zip or binary file. Please specify the direct "
          <> "path to the update content's directory (e.g. /platforms/ios/www) or file (e.g. "
          <> "main.jsbundle)."))
    throw_for_invalid_semver_range env r.info.app_store_version
    is_directory ← or_throw (env.is_directory r.package_path) no_such_file
    catching (check_and_upload r) (release_error_handler r.no_duplicate_release_error)

  unfoldable pub validate_deployment : String → Option String → Run Done
  unfolding call with_advice
  validate_deployment app deployment =
      catching (call env sdk (Endpoints.get_deployment app (deployment_text deployment)))
        (λ e. throwing (with_advice e))
