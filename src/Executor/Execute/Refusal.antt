-- ===== src/Executor/Execute/Refusal.antt =====
-- Who may run a command.
use code_push.Common.{◌≡◌, ◌⊎◌, inl, inr, refl, String, Bool, Option, none, some, []}
use code_push.Common.Promise.{Done, Failure, rejected}
use code_push.Parser.{Command, login, register, link}
use code_push.Management.{AccountManager}
use code_push.Executor.{Stored, Run, pure, or_rethrow, ◌>>=◌}
use code_push.Executor.Sdk.{Environment, get_sdk}
use code_push.Executor.Connection.{deserialize_connection_info}
use code_push.Executor.Execute.{gate, execute}

-- The commands for which the user must be logged in.
abbrev pub NeedsLogin : Command → Type 0
NeedsLogin (login server_url access_key proxy no_proxy) = ⊥
NeedsLogin (register server_url proxy no_proxy) = ⊥
NeedsLogin (link server_url) = ⊥
NeedsLogin _ = Unit

-- The run has no effect, and its promise is rejected.
abbrev pub IsRefused : Run Done → Type 0
IsRefused run = (run.effects ≡ []) × (e : Failure) × (run.result ≡ rejected e)

-- The check of a command that needs a login has no effect.
or_rethrow-eq-nil :
    (x : Failure ⊎ AccountManager) → (or_rethrow x >>= λ sdk. pure (some sdk)).effects ≡ []
or_rethrow-eq-nil (inl e) = refl
or_rethrow-eq-nil (inr sdk) = refl

pub gate-eq-nil :
    (env : Environment) (connection : Option Stored) (sdk : Option AccountManager)
    (command : Command)
    → NeedsLogin command
    → (gate env connection sdk command).effects ≡ []
unfolding gate get_sdk
gate-eq-nil env connection sdk (login server_url key proxy no_proxy) d = absurd d
gate-eq-nil env connection sdk (register server_url proxy no_proxy) d = absurd d
gate-eq-nil env connection sdk (link server_url) d = absurd d
gate-eq-nil env connection (some sdk) _ d = refl
gate-eq-nil env none none _ d = refl
gate-eq-nil env (some stored) none _ d = or_rethrow-eq-nil _

-- Without a connection file and without an SDK, every command but login, register and link is
-- refused, and a login or a registration with a connection file is refused: nothing happens.
pub execute-IsRefused :
    (env : Environment) (stored : Stored) (sdk : Option AccountManager) (command : Command)
    (server_url access_key proxy : Option String) (no_proxy : Option Bool)
    → NeedsLogin command
    → IsRefused (execute env none none command)
      × IsRefused (execute env (some stored) sdk (login server_url access_key proxy no_proxy))
      × IsRefused (execute env (some stored) sdk (register server_url proxy no_proxy))
unfolding execute gate deserialize_connection_info
execute-IsRefused env stored sdk command server_url access_key proxy no_proxy h =
    (refused env command h, (refl, _, refl), (refl, _, refl))
  where
    refused :
        (env : Environment) (command : Command)
        → NeedsLogin command
        → IsRefused (execute env none none command)
    refused env (login server_url access_key proxy no_proxy) h = absurd h
    refused env (register server_url proxy no_proxy) h = absurd h
    refused env (link server_url) h = absurd h
    refused env _ h = (refl, _, refl)
