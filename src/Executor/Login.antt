-- ===== src/Executor/Login.antt =====
-- `login`, `register`, `link` and `logout`.
use code_push.Common.{
  ◌<>◌, String, Bool, true, false, Option, none, some, ◌==◌, ◌||◌, is_truthy, if◌then◌else◌,
}
use code_push.Common.Promise.{Done, done, Failure, error}
use code_push.Management.{AccountManager}
use code_push.Management.Endpoints
use code_push.Executor.{
  Stored, opens, saves, forgets, Run, pure, throwing, guard, given, doing, catching, ◌>>=◌, ◌>>◌,
}
use code_push.Executor.Sdk.{
  Environment, call, is_authenticated, get_sdk, get_proxy, has_status, is_set,
}
use code_push.Executor.Connection.{truthy, serialize_connection_info}
use code_push.Executor.Prompt.{request_access_key}

abbrev or_server : Option String → String → String
or_server none server = server
or_server (some url) server = if is_truthy url then url else server

-- `initiateExternalAuthenticationAsync`: the page that is opened.
unfoldable pub authentication_url : Environment → String → Option String → String
authentication_url env action server_url =
    if action == "link"
    then or_server server_url "https://mobile.azure.com"
    else or_server server_url "https://codepush-management.azurewebsites.net"
      <> "/auth/"
      <> action
      <> "?hostname="
      <> env.hostname

unfoldable pub run_link : Environment → Option String → Run Done
unfolding authentication_url
run_link env server_url = doing (opens (authentication_url env "link" server_url))

-- What `login` and `loginWithExternalAuthentication` do with a key: it is saved if the server knows
-- it.
unfoldable pub check_and_save :
    Environment → String → Bool → Option String → Option String → Option Bool → Failure → Run Done
unfolding get_sdk is_authenticated get_proxy serialize_connection_info
check_and_save env access_key preserve server_url proxy no_proxy refusal = do
  sdk ← get_sdk env (some access_key) server_url (get_proxy env proxy no_proxy)
  known ← is_authenticated env sdk false
  guard known refusal
  doing (saves (serialize_connection_info access_key preserve server_url proxy no_proxy))

unfoldable pub login_with_external_authentication :
    Environment → String → Option String → Option String → Option Bool → Run Done
unfolding authentication_url check_and_save request_access_key
login_with_external_authentication env action server_url proxy no_proxy = do
  doing (opens (authentication_url env action server_url))
  given (request_access_key env) (pure done) (λ access_key.
      check_and_save env access_key false server_url proxy no_proxy (error "Invalid token."))

unfoldable pub run_login :
    Environment → Option String → Option String → Option String → Option Bool → Run Done
unfolding check_and_save login_with_external_authentication
run_login env server_url access_key proxy no_proxy =
    given (truthy access_key)
      (login_with_external_authentication env "login" server_url proxy no_proxy)
      (λ key. check_and_save env key true server_url proxy no_proxy (error "Invalid access key."))

unfoldable pub run_register : Environment → Option String → Option String → Option Bool → Run Done
unfolding login_with_external_authentication
run_register env server_url proxy no_proxy =
    login_with_external_authentication env "register" server_url proxy no_proxy

-- `logout`. Without a connection a field of it is read, and this throws.
unfoldable pub run_logout : Environment → Option Stored → AccountManager → Run Done
unfolding call
run_logout env none sdk = throwing (error "Cannot read property of undefined")
run_logout env (some connection) sdk =
    let removal =
      catching (call env sdk (Endpoints.remove_session env.hostname))
        (λ e. guard (has_status 401 e.status_code || has_status 404 e.status_code) e) in
    (if is_set connection.preserve_access_key_on_logout then pure done else removal)
    >> doing forgets
