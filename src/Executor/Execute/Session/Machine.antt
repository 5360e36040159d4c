-- ===== src/Executor/Execute/Session/Machine.antt =====
-- The life of the connection file as an abstract machine, which `execute` implements.
use code_push.Common.{
  ◌≡◌, refl, String, Bool, true, false, Option, none, some, List, [], ◌⊎◌, inl, inr,
}
use code_push.Common.Promise.{Done, done, Failure, Promise, resolved, rejected, pending}
use code_push.Parser.{Command, login, register, link}
use code_push.Management.{AccountManager}
use code_push.Executor.{Stored, Effect, Run, after, pure, given}
use code_push.Executor.Sdk.{Environment}
use code_push.Executor.Connection.{truthy, deserialize_connection_info, file_after}
use code_push.Executor.Prompt.{request_access_key}
use code_push.Executor.Login.{
  check_and_save, login_with_external_authentication, run_login, run_register, run_link,
}
use code_push.Executor.Good.{All}
use code_push.Executor.Execute.{gate, handle, execute}
use code_push.Executor.Execute.Refusal.{NeedsLogin, gate-eq-nil}
use code_push.Executor.Execute.Session.{NeverSaves, stays_or_goes, IsOf-NeverSaves, handle-IsOf}
use code_push.Executor.Execute.Session.Login.{IsKnown, check_and_save-cases}

abbrev pub SignsIn : Command → Type 0
SignsIn (login server_url access_key proxy no_proxy) = Unit
SignsIn (register server_url proxy no_proxy) = Unit
SignsIn _ = ⊥

-- What a command may make of the connection file: it stays; a command that needs a login may delete
-- it; and where there is none, a login or a registration may write one with a key that the server
-- knows.
pub data Step (env : Environment) (command : Command) : Option Stored → Option Stored → Type 0 where
  stays : (file : Option Stored) → Step env command file file
  signs_out : (file : Option Stored) → NeedsLogin command → Step env command file none
  signs_in :
      (stored : Stored) → SignsIn command → IsKnown env stored → Step env command none (some stored)

-- A file of which nothing is known before a login.
abbrev IsSignedIn : Environment → Option Stored → Type 0
IsSignedIn env file =
    (file ≡ none) ⊎ ((stored : Stored) × (file ≡ some stored) × IsKnown env stored)

module _ (env : Environment) where
  given-IsSignedIn :
      (o : Option String) (p : Run Done) (k : String → Run Done)
      → IsSignedIn env (file_after p.effects none)
      → ((s : String) → IsSignedIn env (file_after (k s).effects none))
      → IsSignedIn env (file_after (given o p k).effects none)
  given-IsSignedIn none p k h next = h
  given-IsSignedIn (some s) p k h next = next s

  check_and_save-IsSignedIn :
      (key : String) (preserve : Bool) (server_url proxy : Option String) (no_proxy : Option Bool)
      (refusal : Failure)
      → IsSignedIn env (
          file_after
            (check_and_save env key preserve server_url proxy no_proxy refusal).effects
            none)
  check_and_save-IsSignedIn key preserve server_url proxy no_proxy refusal =
      elim (check_and_save-cases env key preserve server_url proxy no_proxy refusal) [
        | inl kept ↦ inl kept.0
        | inr (saved, known) ↦ inr (_, saved, known)
      ]

  with_browser-IsSignedIn :
      (action : String) (server_url proxy : Option String) (no_proxy : Option Bool)
      → IsSignedIn env (
          file_after
            (login_with_external_authentication env action server_url proxy no_proxy).effects
            none)
  unfolding login_with_external_authentication file_after
  with_browser-IsSignedIn action server_url proxy no_proxy =
      given-IsSignedIn (request_access_key env) (pure done) _ (inl refl)
        (λ key. check_and_save-IsSignedIn key false server_url proxy no_proxy _)

  run_login-IsSignedIn :
      (server_url access_key proxy : Option String) (no_proxy : Option Bool)
      → IsSignedIn env
          (file_after (run_login env server_url access_key proxy no_proxy).effects none)
  unfolding run_login
  run_login-IsSignedIn server_url access_key proxy no_proxy =
      given-IsSignedIn (truthy access_key) _ _
        (with_browser-IsSignedIn "login" server_url proxy no_proxy)
        (λ key. check_and_save-IsSignedIn key true server_url proxy no_proxy _)

  SignsIn-Step :
      (command : Command) (file : Option Stored)
      → SignsIn command
      → IsSignedIn env file
      → Step env command none file
  SignsIn-Step command file h (inl none_yet) = rw none_yet (stays none)
  SignsIn-Step command file h (inr (stored, saved, known)) = rw saved (signs_in stored h known)

  without_saves-Step :
      (l : List Effect) (file : Option Stored) (command : Command)
      → NeedsLogin command
      → All NeverSaves l
      → Step env command file (file_after l file)
  without_saves-Step l file command n h = elim (stays_or_goes l file h) [
    | inl same ↦ rw same (stays file)
    | inr gone ↦ rw gone (signs_out file n)
  ]

  -- Where there is no SDK, nothing happens.
  missing-NeverSaves :
      (file connection : Option Stored) (command : Command)
      → NeedsLogin command
      → All NeverSaves (handle env file connection none command).effects
  unfolding handle
  missing-NeverSaves file connection (login server_url key proxy no_proxy) n = absurd n
  missing-NeverSaves file connection (register server_url proxy no_proxy) n = absurd n
  missing-NeverSaves file connection (link server_url) n = absurd n
  missing-NeverSaves file connection _ n = tt

  handle-Step :
      (file connection : Option Stored) (sdk : Option AccountManager) (command : Command)
      → NeedsLogin command
      → Step env command file (file_after (handle env file connection sdk command).effects file)
  handle-Step file connection none command n =
      without_saves-Step _ file command n (missing-NeverSaves file connection command n)
  handle-Step file connection (some sdk) command n =
      without_saves-Step _ file command n
        (IsOf-NeverSaves sdk _ (handle-IsOf env file connection sdk command n))

  after-Step :
      (effects : List Effect) (p : Promise (Option AccountManager))
      (k : Option AccountManager → Run Done) (file : Option Stored) (command : Command)
      → effects ≡ []
      → ((sdk : Option AccountManager) → Step env command file (file_after (k sdk).effects file))
      → Step env command file (file_after (after effects p k).effects file)
  unfolding file_after
  after-Step effects (resolved sdk) k file command h next = rw h (next sdk)
  after-Step effects (rejected e) k file command h next = rw h (stays file)
  after-Step effects pending k file command h next = rw h (stays file)

  logged_in-Step :
      (file : Option Stored) (sdk : Option AccountManager) (command : Command)
      → NeedsLogin command
      → Step env command file (file_after (execute env file sdk command).effects file)
  unfolding execute
  logged_in-Step file sdk command n =
      let connection = deserialize_connection_info env file in
      let run = gate env connection sdk command in
      after-Step run.effects run.result _ file command (gate-eq-nil env connection sdk command n)
        (λ sdk. handle-Step file connection sdk command n)

  -- `execute` does to the connection file what the abstract machine allows.
  pub execute-Step :
      (file : Option Stored) (sdk : Option AccountManager) (command : Command)
      → Step env command file (file_after (execute env file sdk command).effects file)
  unfolding execute gate handle deserialize_connection_info run_link run_register file_after
  execute-Step none sdk (login server_url key proxy no_proxy) =
      SignsIn-Step _ _ tt (run_login-IsSignedIn server_url key proxy no_proxy)
  execute-Step (some stored) sdk (login server_url key proxy no_proxy) = stays (some stored)
  execute-Step none sdk (register server_url proxy no_proxy) =
      SignsIn-Step _ _ tt (with_browser-IsSignedIn "register" server_url proxy no_proxy)
  execute-Step (some stored) sdk (register server_url proxy no_proxy) = stays (some stored)
  execute-Step file sdk (link server_url) = stays file
  execute-Step file sdk command = logged_in-Step file sdk command tt
