-- ===== src/Executor/Execute/Consent.antt =====
-- What takes something away asks first.
use code_push.Common.{◌≡◌, ◌≢◌, refl, Bool, true, false, Option, none, some, List, [], arith}
use code_push.Common.Promise.{Done, Failure, Promise, resolved, rejected, pending}
use code_push.Management.{AccountManager, Operation}
use code_push.Parser.{
  Command, login, register, link, access_key_remove, app_remove, app_transfer, collaborator_remove,
  deployment_history_clear, deployment_remove, rollback, session_remove,
}
use code_push.Executor.{Stored, Effect, Run, ◌>>=◌, ◌>>◌, guard, after}
use code_push.Executor.Sdk.{Environment}
use code_push.Executor.Connection.{deserialize_connection_info}
use code_push.Executor.Prompt.{confirm, confirmed, throw_for_invalid_email}
use code_push.Executor.Account
use code_push.Executor.Execute.Refusal.{NeedsLogin, gate-eq-nil}
use code_push.Executor.Execute.{gate, handle, handle_with, execute}

-- The commands that take something away.
abbrev pub IsDestructive : Command → Type 0
IsDestructive (access_key_remove access_key) = Unit
IsDestructive (app_remove app) = Unit
IsDestructive (app_transfer app email) = Unit
IsDestructive (collaborator_remove app email) = Unit
IsDestructive (deployment_history_clear app name) = Unit
IsDestructive (deployment_remove app name) = Unit
IsDestructive (rollback app name target) = Unit
IsDestructive (session_remove machine_name) = Unit
IsDestructive _ = ⊥

guarded-eq-nil :
    (b : Bool) (e : Failure) (run : Run Done) → run.effects ≡ [] → (guard b e >> run).effects ≡ []
guarded-eq-nil true e run h = h
guarded-eq-nil false e run h = refl

module _ (env : Environment) (h : confirm env.answer ≢ resolved true) where
  confirmed-eq-nil :
      (sdk : AccountManager) (operation : Operation) → (confirmed env sdk operation).effects ≡ []
  unfolding confirmed
  confirmed-eq-nil sdk operation = ground arith

  handle-eq-nil :
      (file connection : Option Stored) (sdk : Option AccountManager) (command : Command)
      → IsDestructive command
      → (handle env file connection sdk command).effects ≡ []
  unfolding handle handle_with Account.app_transfer Account.remove_collaborator
      Account.session_remove throw_for_invalid_email
  handle-eq-nil file connection sdk (login server_url key proxy no_proxy) d = absurd d
  handle-eq-nil file connection sdk (register server_url proxy no_proxy) d = absurd d
  handle-eq-nil file connection sdk (link server_url) d = absurd d
  handle-eq-nil file connection none _ d = refl
  handle-eq-nil file connection (some sdk) (access_key_remove key) d = confirmed-eq-nil sdk _
  handle-eq-nil file connection (some sdk) (app_remove app) d = confirmed-eq-nil sdk _
  handle-eq-nil file connection (some sdk) (app_transfer app email) d =
      guarded-eq-nil _ _ _ (confirmed-eq-nil sdk _)
  handle-eq-nil file connection (some sdk) (collaborator_remove app email) d =
      guarded-eq-nil _ _ _ (confirmed-eq-nil sdk _)
  handle-eq-nil file connection (some sdk) (deployment_history_clear app name) d =
      confirmed-eq-nil sdk _
  handle-eq-nil file connection (some sdk) (deployment_remove app name) d = confirmed-eq-nil sdk _
  handle-eq-nil file connection (some sdk) (rollback app name target) d = confirmed-eq-nil sdk _
  handle-eq-nil file connection (some sdk) (session_remove machine_name) d =
      guarded-eq-nil _ _ _ (confirmed-eq-nil sdk _)
  handle-eq-nil file connection (some sdk) _ d = absurd d

IsDestructive-NeedsLogin : (command : Command) → IsDestructive command → NeedsLogin command
IsDestructive-NeedsLogin (login server_url key proxy no_proxy) d = d
IsDestructive-NeedsLogin (register server_url proxy no_proxy) d = d
IsDestructive-NeedsLogin (link server_url) d = d
IsDestructive-NeedsLogin _ d = tt

>>=-eq-nil :
    {A : Type 0} {B : Type 0} (run : Run A) (k : A → Run B)
    → run.effects ≡ []
    → ((a : A) → (k a).effects ≡ [])
    → (run >>= k).effects ≡ []
>>=-eq-nil run k h next = after-eq-nil run.effects run.result h
  where
    after-eq-nil :
        (effects : List Effect) (p : Promise _) → effects ≡ [] → (after effects p k).effects ≡ []
    after-eq-nil effects (resolved a) h = rw h (next a)
    after-eq-nil effects (rejected e) h = h
    after-eq-nil effects pending h = h

-- Where the user does not answer with yes, a command that takes something away has no effect at
-- all: no request is sent.
pub execute-SendsNothing :
    (env : Environment) (file : Option Stored) (sdk : Option AccountManager) (command : Command)
    → IsDestructive command
    → confirm env.answer ≢ resolved true
    → (execute env file sdk command).effects ≡ []
unfolding execute
execute-SendsNothing env file sdk command d h =
    let connection = deserialize_connection_info env file in
    >>=-eq-nil (gate env connection sdk command) _
      (gate-eq-nil env connection sdk command (IsDestructive-NeedsLogin command d))
      (λ sdk. handle-eq-nil env h file connection sdk command d)
