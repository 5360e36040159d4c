-- ===== src/Executor/Account.antt =====
-- The commands on access keys, apps, collaborators and sessions.
use code_push.Common.{
  ℕ, ◌<>◌, String, Bool, false, Option, none, some, ◌==◌, ◌||◌, not, is_some, if◌then◌else◌,
}
use code_push.Common.Text.{to_lower}
use code_push.Common.Promise.{Done, error}
use code_push.Management.{AccountManager}
use code_push.Management.Endpoints
use code_push.Management.Endpoints.{add_access_key}
use code_push.Executor.{Run, guard, or_rethrow, ◌>>=◌, ◌>>◌}
use code_push.Executor.Sdk.{Environment, call}
use code_push.Executor.Prompt.{confirmed, throw_for_invalid_email}

abbrev is_renamed : String → Option String → Bool
is_renamed old_name none = false
is_renamed old_name (some new_name) = not (old_name == new_name)

-- The `if` of `appAdd` on the operating system.
unfoldable pub os_name : String → Option String
unfolding to_lower
os_name os =
    let normalized_os = to_lower os in
    if normalized_os == "ios"
    then some "iOS"
    else if normalized_os == "android"
    then some "Android"
    else if normalized_os == "windows"
    then some "Windows"
    else none

unfoldable pub platform_name : String → Option String
unfolding to_lower
platform_name platform =
    let normalized_platform = to_lower platform in
    if normalized_platform == "react-native"
    then some "React-Native"
    else if normalized_platform == "cordova"
    then some "Cordova"
    else none

module _ (env : Environment) (sdk : AccountManager) where
  unfoldable pub access_key_add : String → ℕ → Run Done
  unfolding call add_access_key
  access_key_add name ttl = do
    operation ← or_rethrow (add_access_key env.hostname name (some ttl))
    call env sdk operation

  unfoldable pub access_key_patch : String → Option String → Option ℕ → Run Done
  unfolding call
  access_key_patch old_name new_name ttl = do
    guard (is_renamed old_name new_name || is_some ttl)
        (error "A new name and/or TTL must be provided.")
    call env sdk (Endpoints.patch_access_key old_name new_name ttl)

  unfoldable pub app_transfer : String → String → Run Done
  unfolding throw_for_invalid_email confirmed
  app_transfer app email = do
    throw_for_invalid_email env email
    confirmed env sdk (Endpoints.transfer_app app email)

  unfoldable pub add_collaborator : String → String → Run Done
  unfolding throw_for_invalid_email call
  add_collaborator app email = do
    throw_for_invalid_email env email
    call env sdk (Endpoints.add_collaborator app email)

  unfoldable pub remove_collaborator : String → String → Run Done
  unfolding throw_for_invalid_email confirmed
  remove_collaborator app email = do
    throw_for_invalid_email env email
    confirmed env sdk (Endpoints.remove_collaborator app email)

  unfoldable pub session_remove : String → Run Done
  unfolding confirmed
  session_remove machine_name = do
    guard (not (env.hostname == machine_name)) (
        error (
          "Cannot remove the current login session via this command. "
          <> "Please run 'code-push logout' instead."))
    confirmed env sdk (Endpoints.remove_session machine_name)

  abbrev pub access_key_remove : String → Run Done
  access_key_remove key = confirmed env sdk (Endpoints.remove_access_key key)

  abbrev pub app_remove : String → Run Done
  app_remove app = confirmed env sdk (Endpoints.remove_app app)

  abbrev pub app_rename : String → String → Run Done
  app_rename current new = call env sdk (Endpoints.rename_app current new)
