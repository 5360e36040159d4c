-- ===== src/Executor/Execute/Settling.antt =====
-- Every command ends, and which effects the commands that use the SDK have.
use code_push.Common.{String, Bool, Option, none, some}
use code_push.Common.Promise.{Failure}
use code_push.Parser.{Command, link, login, register}
use code_push.Management.{AccountManager}
use code_push.Executor.{Stored, Effect, Upload, uploads, opens, saves, doing}
use code_push.Executor.Sdk.{Environment}
use code_push.Executor.Connection.{deserialize_connection_info}
use code_push.Executor.Login.{
  check_and_save, login_with_external_authentication, run_link, run_login, run_register,
}
use code_push.Executor.Good.{IsGood, IsReliable, IsSettled, Permits}
use code_push.Executor.Good.Rules.{good, doing-IsGood, >>=-IsGood}
use code_push.Executor.Good.Commands
use code_push.Executor.Good.Releases
use code_push.Executor.Execute.{gate, handle, handle_with, execute}
use code_push.Executor.Execute.Refusal.{NeedsLogin}

ruleset commands = (
  good, Commands.confirmed-IsGood, Commands.access_key_add-IsGood, Commands.access_key_patch-IsGood,
  Commands.app_transfer-IsGood, Commands.add_collaborator-IsGood,
  Commands.remove_collaborator-IsGood, Commands.session_remove-IsGood, Commands.run_logout-IsGood,
  Commands.listing-IsGood, Commands.deployment_list-IsGood, Commands.deployment_history-IsGood,
  Commands.whoami-IsGood, Commands.app_add-IsGood, Commands.deployment_add-IsGood,
  Commands.patch-IsGood, Commands.run_promote-IsGood, Commands.release-IsGood,
  Commands.release_cordova-IsGood, Releases.release_react-IsGood, Releases.debug_command-IsGood,
)

module _ (P : Effect → Type 0) (env : Environment) (sdk : AccountManager) (permits : Permits P sdk)
    (uploading : (u : Upload) → P (uploads sdk u)) where
  pub handle_with-IsGood :
      (file connection : Option Stored) (command : Command)
      → NeedsLogin command
      → IsGood P env (handle_with env file connection sdk command)
  unfolding handle_with
  handle_with-IsGood file connection (login server_url key proxy no_proxy) h = absurd h
  handle_with-IsGood file connection (register server_url proxy no_proxy) h = absurd h
  handle_with-IsGood file connection (link server_url) h = absurd h
  handle_with-IsGood file connection _ h = search commands

abbrev Anything : Effect → Type 0
Anything effect = Unit

anything : (sdk : AccountManager) → Permits Anything sdk
anything sdk = record {
  call = λ operation. tt;
  check = λ throws. tt;
  forget = tt;
  run = λ command. tt;
  create = λ folder. tt;
  delete = λ folder. tt;
}

module _ (env : Environment) where
  opening-IsGood : (url : String) → IsGood Anything env (doing (opens url))
  opening-IsGood url = doing-IsGood Anything env (opens url) tt

  saving-IsGood : (stored : Stored) → IsGood Anything env (doing (saves stored))
  saving-IsGood stored = doing-IsGood Anything env (saves stored) tt

  check_and_save-IsGood :
      (key : String) (preserve : Bool) (server_url proxy : Option String) (no_proxy : Option Bool)
      (refusal : Failure)
      → IsGood Anything env (check_and_save env key preserve server_url proxy no_proxy refusal)
  unfolding check_and_save
  check_and_save-IsGood key preserve server_url proxy no_proxy refusal =
      search (good, saving-IsGood, anything) depth 10

  with_browser-IsGood :
      (action : String) (server_url proxy : Option String) (no_proxy : Option Bool)
      → IsGood Anything env
          (login_with_external_authentication env action server_url proxy no_proxy)
  unfolding login_with_external_authentication
  with_browser-IsGood action server_url proxy no_proxy =
      search (good, opening-IsGood, check_and_save-IsGood)

  gate-IsGood :
      (connection : Option Stored) (sdk : Option AccountManager) (command : Command)
      → IsGood Anything env (gate env connection sdk command)
  unfolding gate
  gate-IsGood none sdk (login server_url key proxy no_proxy) = search good
  gate-IsGood (some stored) sdk (login server_url key proxy no_proxy) = search good
  gate-IsGood none sdk (register server_url proxy no_proxy) = search good
  gate-IsGood (some stored) sdk (register server_url proxy no_proxy) = search good
  gate-IsGood connection sdk (link server_url) = search good
  gate-IsGood connection (some sdk) _ = search good
  gate-IsGood none none _ = search good
  gate-IsGood (some stored) none _ = search good

  handle-IsGood :
      (file connection : Option Stored) (sdk : Option AccountManager) (command : Command)
      → IsGood Anything env (handle env file connection sdk command)
  unfolding handle run_login run_register run_link
  handle-IsGood file connection sdk (login server_url key proxy no_proxy) =
      search (good, check_and_save-IsGood, with_browser-IsGood)
  handle-IsGood file connection sdk (register server_url proxy no_proxy) =
      with_browser-IsGood "register" server_url proxy no_proxy
  handle-IsGood file connection sdk (link server_url) = opening-IsGood _
  handle-IsGood file connection none _ = search good
  handle-IsGood file connection (some sdk) command =
      handle_with-IsGood Anything env sdk (anything sdk) (λ u. tt) file connection command tt

-- Every command ends, resolved or rejected, if the prompt is answered, every request and every
-- deletion of a folder settles, and every child process ends.
pub execute-IsSettled :
    (env : Environment) (file : Option Stored) (sdk : Option AccountManager) (command : Command)
    → IsReliable env
    → IsSettled (execute env file sdk command).result
unfolding execute
execute-IsSettled env file sdk command r =
    let connection = deserialize_connection_info env file in
    (>>=-IsGood Anything env (gate env connection sdk command) _
        (gate-IsGood env connection sdk command)
        (λ sdk. handle-IsGood env file connection sdk command)).ends
      r
