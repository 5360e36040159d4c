-- ===== src/Executor/Execute.antt =====
-- `execute`: who may run a command, and the dispatch on commands.
pub mod Refusal
pub mod Consent
pub mod Settling
pub mod Session
use code_push.Common.{
  ℕ, ◌<>◌, String, Bool, true, false, Option, none, some, List, [], ◌∷◌, if◌then◌else◌,
}
use code_push.Common.Promise.{Done, done, Failure, error}
use code_push.Parser.{
  Command, access_key_add, access_key_patch, access_key_list, access_key_remove, app_add, app_list,
  app_remove, app_rename, app_transfer, collaborator_add, collaborator_list, collaborator_remove,
  debug, deployment_add, deployment_history, deployment_history_clear, deployment_list,
  deployment_remove, deployment_rename, link, login, logout, patch, promote, register, release,
  release_cordova, release_react, rollback, session_list, session_remove, whoami,
}
use code_push.Management.{AccountManager, getting, field}
use code_push.Management.Endpoints
use code_push.Executor.{Stored, Run, pure, throwing, ◌>>=◌}
use code_push.Executor.Sdk.{Environment, call, get_sdk}
use code_push.Executor.Connection.{truthy, deserialize_connection_info}
use code_push.Executor.Prompt.{confirmed}
use code_push.Executor.Login
use code_push.Executor.Account
use code_push.Executor.Listing
use code_push.Executor.Deployments
use code_push.Executor.Release
use code_push.Executor.Cordova
use code_push.Executor.React
use code_push.Executor.Debug

abbrev already_logged_in : Failure
already_logged_in = error "You are already logged in from this machine."

abbrev pub not_logged_in : Failure
not_logged_in = error (
    "You are not currently logged in. Run the 'code-push login' command to authenticate "
    <> "with the CodePush server.")

abbrev must_be_logged_out : Option Stored → Option AccountManager → Run (Option AccountManager)
must_be_logged_out none sdk = pure sdk
must_be_logged_out (some connection) sdk = throwing already_logged_in

-- The SDK that was set before, or the one for the connection.
abbrev must_be_logged_in :
    Environment → Option Stored → Option AccountManager → Run (Option AccountManager)
must_be_logged_in env connection (some sdk) = pure (some sdk)
must_be_logged_in env none none = throwing not_logged_in
must_be_logged_in env (some connection) none =
    get_sdk env connection.access_key connection.custom_server_url connection.proxy >>= λ sdk.
    pure (some sdk)

-- The first `switch` of `execute`: the SDK, or the error that is thrown.
unfoldable pub gate :
    Environment → Option Stored → Option AccountManager → Command → Run (Option AccountManager)
unfolding get_sdk
gate env connection sdk (login server_url key proxy no_proxy) = must_be_logged_out connection sdk
gate env connection sdk (register server_url proxy no_proxy) = must_be_logged_out connection sdk
gate env connection sdk (link server_url) = pure sdk
gate env connection sdk _ = must_be_logged_in env connection sdk

-- The commands that use the SDK.
unfoldable pub handle_with :
    Environment → Option Stored → Option Stored → AccountManager → Command → Run Done
handle_with env file connection sdk (access_key_add name ttl) =
    Account.access_key_add env sdk name ttl
handle_with env file connection sdk (access_key_patch old_name new_name ttl) =
    Account.access_key_patch env sdk old_name new_name ttl
handle_with env file connection sdk (access_key_list format) =
    Listing.access_key_list env sdk format
handle_with env file connection sdk (access_key_remove key) = Account.access_key_remove env sdk key
handle_with env file connection sdk (app_add app os platform) =
    Deployments.app_add env sdk app os platform
handle_with env file connection sdk (app_list format) = Listing.app_list env sdk format
handle_with env file connection sdk (app_remove app) = Account.app_remove env sdk app
handle_with env file connection sdk (app_rename current new) =
    Account.app_rename env sdk current new
handle_with env file connection sdk (app_transfer app email) =
    Account.app_transfer env sdk app email
handle_with env file connection sdk (collaborator_add app email) =
    Account.add_collaborator env sdk app email
handle_with env file connection sdk (collaborator_list app format) =
    Listing.list_collaborators env sdk app format
handle_with env file connection sdk (collaborator_remove app email) =
    Account.remove_collaborator env sdk app email
handle_with env file connection sdk (debug platform) = Debug.debug_command env platform
handle_with env file connection sdk (deployment_add app name default) =
    Deployments.deployment_add env sdk app name default
handle_with env file connection sdk (deployment_history_clear app name) =
    Deployments.deployment_history_clear env sdk app name
handle_with env file connection sdk (deployment_history app name format author) =
    Listing.deployment_history env sdk app name format
handle_with env file connection sdk (deployment_list app format keys) =
    Listing.deployment_list env sdk app format true
handle_with env file connection sdk (deployment_remove app name) =
    Deployments.deployment_remove env sdk app name
handle_with env file connection sdk (deployment_rename app current new) =
    Deployments.deployment_rename env sdk app current new
handle_with env file connection sdk (link server_url) = Login.run_link env server_url
handle_with env file connection sdk (login server_url key proxy no_proxy) =
    Login.run_login env server_url key proxy no_proxy
handle_with env file connection sdk logout = Login.run_logout env connection sdk
handle_with env file connection sdk (patch app name info) = Deployments.patch env sdk app name info
handle_with env file connection sdk (promote app source dest quiet info) =
    Deployments.run_promote env sdk app source dest quiet info
handle_with env file connection sdk (register server_url proxy no_proxy) =
    Login.run_register env server_url proxy no_proxy
handle_with env file connection sdk (release app path name quiet info) =
    Release.release env sdk (record {
      app_name = app;
      package_path = path;
      deployment_name = name;
      no_duplicate_release_error = quiet;
      info = info;
    })
handle_with env file connection sdk (release_cordova app platform name quiet build kind info) =
    Cordova.release_cordova env sdk (record {
      app_name = app;
      platform = platform;
      deployment_name = name;
      no_duplicate_release_error = quiet;
      build = build;
      is_release_build_type = kind;
      info = info;
    })
handle_with env file connection sdk (release_react app platform name quiet info options) =
    React.release_react env sdk (record {
      app_name = app;
      platform = platform;
      deployment_name = name;
      no_duplicate_release_error = quiet;
      info = info;
      options = options;
    })
handle_with env file connection sdk (rollback app name target) =
    Deployments.rollback env sdk app name target
handle_with env file connection sdk (session_list format) = Listing.session_list env sdk format
handle_with env file connection sdk (session_remove machine_name) =
    Account.session_remove env sdk machine_name
handle_with env file connection sdk whoami = Listing.whoami env sdk file

-- The second `switch`. The commands that need no SDK are those of the first clauses; a method of a
-- missing SDK throws.
unfoldable pub handle :
    Environment → Option Stored → Option Stored → Option AccountManager → Command → Run Done
unfolding handle_with
handle env file connection sdk (link server_url) = Login.run_link env server_url
handle env file connection sdk (login server_url key proxy no_proxy) =
    Login.run_login env server_url key proxy no_proxy
handle env file connection sdk (register server_url proxy no_proxy) =
    Login.run_register env server_url proxy no_proxy
handle env file connection none _ = throwing (error "Cannot read property of null")
handle env file connection (some sdk) command = handle_with env file connection sdk command

-- `execute`, with the connection file and the SDK as they are before.
unfoldable pub execute : Environment → Option Stored → Option AccountManager → Command → Run Done
unfolding gate handle deserialize_connection_info
execute env file sdk command =
    gate env (deserialize_connection_info env file) sdk command >>= λ sdk.
    handle env file (deserialize_connection_info env file) sdk command
