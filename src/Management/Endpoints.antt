-- ===== src/Management/Endpoints.antt =====
-- The methods of `AccountManager`, each the operation that it hands to `makeApiRequest`.
pub mod Laws
pub mod Names
use code_push.Common.{
  ℕ, String, Bool, true, false, Option, none, some, List, [], ◌∷◌, ◌++◌, ◌⊎◌, inl, inr,
  if◌then◌else◌, is_truthy,
}
use code_push.Common.Json.{codes}
use code_push.Common.Text.{replace_first}
use code_push.Common.Uri.{encode_uri_component}
use code_push.Common.Promise.{Failure, error}
use code_push.Management.{
  PackageInfo, access_key_request, app_creation, named, package_info, null, field, renamed_key,
  created_app, Operation, getting, posting, patching, deleting,
}

-- The tag `urlEncode`, on the texts and the values of a template.
unfoldable pub url_encode : List String → List String → List ℕ
url_encode [] values = []
url_encode (s ∷ strings) [] = codes s ++ url_encode strings []
url_encode (s ∷ strings) (value ∷ values) =
    codes s ++ encode_uri_component value ++ url_encode strings values

-- `appNameParam`
unfoldable pub app_name_param : String → String
unfolding replace_first
app_name_param app_name = replace_first b'/' "~~" app_name

unfoldable pub app_endpoint : String → List ℕ
unfolding url_encode app_name_param
app_endpoint app = url_encode ("/apps/" ∷ "" ∷ []) (app_name_param app ∷ [])

module _ (host : String) where
  unfoldable pub add_access_key : String → Option ℕ → Failure ⊎ Operation
  unfolding url_encode posting
  add_access_key name ttl =
      if is_truthy name
      then inr (
          posting (url_encode ("/accessKeys/" ∷ []) [])
            (some (access_key_request (some host) (some name) ttl)) true (renamed_key true))
      else inl (error "A name must be specified when adding an access key.")

unfoldable pub get_access_key : String → Operation
unfolding url_encode
get_access_key name =
    getting (url_encode ("/accessKeys/" ∷ "" ∷ []) (name ∷ [])) (renamed_key false)

unfoldable pub patch_access_key : String → Option String → Option ℕ → Operation
unfolding url_encode patching
patch_access_key old_name new_name ttl =
    patching (url_encode ("/accessKeys/" ∷ "" ∷ []) (old_name ∷ []))
      (access_key_request none new_name ttl) (renamed_key false)

unfoldable pub remove_access_key : String → Operation
unfolding url_encode
remove_access_key name = deleting (url_encode ("/accessKeys/" ∷ "" ∷ []) (name ∷ []))

unfoldable pub remove_session : String → Operation
unfolding url_encode
remove_session machine_name = deleting (url_encode ("/sessions/" ∷ "" ∷ []) (machine_name ∷ []))

-- `getAccessKeys` and `getSessions`: their handlers stand in Management/Sessions.
unfoldable pub get_access_keys : Operation
unfolding url_encode
get_access_keys = getting (url_encode ("/accessKeys" ∷ []) []) (field "accessKeys")

unfoldable pub get_sessions : Operation
unfolding url_encode
get_sessions = getting (url_encode ("/accessKeys" ∷ []) []) (field "accessKeys")

unfoldable pub get_account_info : Operation
unfolding url_encode
get_account_info = getting (url_encode ("/account" ∷ []) []) (field "account")

unfoldable pub get_apps : Operation
unfolding url_encode
get_apps = getting (url_encode ("/apps" ∷ []) []) (field "apps")

unfoldable pub get_app : String → Operation
unfolding app_endpoint
get_app app = getting (app_endpoint app) (field "app")

unfoldable pub add_app : String → String → String → Bool → Operation
unfolding url_encode posting
add_app app os platform manually =
    posting (url_encode ("/apps/" ∷ []) []) (some (app_creation app os platform manually)) false
      (created_app app os platform manually)

unfoldable pub remove_app : String → Operation
unfolding app_endpoint
remove_app app = deleting (app_endpoint app)

unfoldable pub rename_app : String → String → Operation
unfolding app_endpoint patching
rename_app old_app new_app = patching (app_endpoint old_app) (named new_app) null

unfoldable pub transfer_app : String → String → Operation
unfolding url_encode app_name_param posting
transfer_app app email =
    posting (url_encode ("/apps/" ∷ "/transfer/" ∷ "" ∷ []) (app_name_param app ∷ email ∷ [])) none
      false null

unfoldable pub get_collaborators : String → Operation
unfolding url_encode app_name_param
get_collaborators app =
    getting (url_encode ("/apps/" ∷ "/collaborators" ∷ []) (app_name_param app ∷ []))
      (field "collaborators")

unfoldable pub collaborator_endpoint : String → String → List ℕ
unfolding url_encode app_name_param
collaborator_endpoint app email =
    url_encode ("/apps/" ∷ "/collaborators/" ∷ "" ∷ []) (app_name_param app ∷ email ∷ [])

unfoldable pub add_collaborator : String → String → Operation
unfolding collaborator_endpoint posting
add_collaborator app email = posting (collaborator_endpoint app email) none false null

unfoldable pub remove_collaborator : String → String → Operation
unfolding collaborator_endpoint
remove_collaborator app email = deleting (collaborator_endpoint app email)

unfoldable pub deployments_endpoint : String → List ℕ
unfolding url_encode app_name_param
deployments_endpoint app = url_encode ("/apps/" ∷ "/deployments/" ∷ []) (app_name_param app ∷ [])

-- The endpoint of a deployment, with what stands behind its name.
unfoldable pub deployment_endpoint : String → String → String → List ℕ
unfolding url_encode app_name_param
deployment_endpoint app deployment tail =
    url_encode ("/apps/" ∷ "/deployments/" ∷ tail ∷ []) (app_name_param app ∷ deployment ∷ [])

unfoldable pub add_deployment : String → String → Operation
unfolding deployments_endpoint posting
add_deployment app deployment =
    posting (deployments_endpoint app) (some (named deployment)) true (field "deployment")

unfoldable pub clear_deployment_history : String → String → Operation
unfolding deployment_endpoint
clear_deployment_history app deployment = deleting (deployment_endpoint app deployment "/history")

unfoldable pub get_deployments : String → Operation
unfolding deployments_endpoint
get_deployments app = getting (deployments_endpoint app) (field "deployments")

unfoldable pub get_deployment : String → String → Operation
unfolding deployment_endpoint
get_deployment app deployment = getting (deployment_endpoint app deployment "") (field "deployment")

unfoldable pub rename_deployment : String → String → String → Operation
unfolding deployment_endpoint patching
rename_deployment app old_deployment new_deployment =
    patching (deployment_endpoint app old_deployment "") (named new_deployment) null

unfoldable pub remove_deployment : String → String → Operation
unfolding deployment_endpoint
remove_deployment app deployment = deleting (deployment_endpoint app deployment "")

unfoldable pub get_deployment_metrics : String → String → Operation
unfolding deployment_endpoint
get_deployment_metrics app deployment =
    getting (deployment_endpoint app deployment "/metrics") (field "metrics")

unfoldable pub get_deployment_history : String → String → Operation
unfolding deployment_endpoint
get_deployment_history app deployment =
    getting (deployment_endpoint app deployment "/history") (field "history")

-- The label is written into the metadata first.
unfoldable pub patch_release : String → String → Option String → PackageInfo → Operation
unfolding deployment_endpoint patching
patch_release app deployment label metadata =
    patching (deployment_endpoint app deployment "/release")
      (package_info (record metadata { label = label })) null

unfoldable pub promote : String → String → String → PackageInfo → Operation
unfolding url_encode app_name_param posting
promote app source destination metadata =
    posting
      (url_encode ("/apps/" ∷ "/deployments/" ∷ "/promote/" ∷ "" ∷ [])
        (app_name_param app ∷ source ∷ destination ∷ []))
      (some (package_info metadata)) false null

abbrev text_or_empty : Option String → String
text_or_empty none = ""
text_or_empty (some s) = s

unfoldable pub rollback : String → String → Option String → Operation
unfolding url_encode app_name_param posting
rollback app deployment target =
    posting
      (url_encode ("/apps/" ∷ "/deployments/" ∷ "/rollback/" ∷ "" ∷ [])
        (app_name_param app ∷ deployment ∷ text_or_empty target ∷ []))
      none false null
