-- ===== src/Executor/Execute/Session.antt =====
-- What the commands do with the SDK and with the connection file.
pub mod Login
pub mod Machine
pub mod Reached
use code_push.Common.{
  ◌≡◌, refl, String, Bool, true, false, Option, none, some, List, [], ◌∷◌, ◌⊎◌, inl, inr, arith,
}
use code_push.Common.Promise.{Done, done, resolved, rejected, pending}
use code_push.Parser.{Command, login, register, link}
use code_push.Management.{AccountManager}
use code_push.Executor.{
  ◌>>=◌, Stored, Effect, calls, checks, uploads, opens, saves, forgets, runs, creates, deletes, Run,
}
use code_push.Executor.Sdk.{Environment}
use code_push.Executor.Connection.{deserialize_connection_info, file_after}
use code_push.Executor.Good.{All, IsGood, Permits}
use code_push.Executor.Execute.{gate, handle, handle_with, execute}
use code_push.Executor.Execute.Refusal.{NeedsLogin, gate-eq-nil}
use code_push.Executor.Execute.Settling.{handle_with-IsGood}

-- The effects of a command with one SDK: no other SDK is used, no browser is opened, and no file is
-- written.
abbrev pub IsOf : AccountManager → Effect → Type 0
IsOf sdk (calls s operation) = s ≡ sdk
IsOf sdk (checks s throws) = s ≡ sdk
IsOf sdk (uploads s u) = s ≡ sdk
IsOf sdk (opens url) = ⊥
IsOf sdk (saves stored) = ⊥
IsOf sdk _ = Unit

permits : (sdk : AccountManager) → Permits (IsOf sdk) sdk
permits sdk = record {
  call = λ operation. refl;
  check = λ throws. refl;
  forget = tt;
  run = λ command. tt;
  create = λ folder. tt;
  delete = λ folder. tt;
}

handle-IsOf :
    (env : Environment) (file connection : Option Stored) (sdk : AccountManager) (command : Command)
    → NeedsLogin command
    → All (IsOf sdk) (handle env file connection (some sdk) command).effects
unfolding handle
handle-IsOf env file connection sdk (login server_url key proxy no_proxy) h = absurd h
handle-IsOf env file connection sdk (register server_url proxy no_proxy) h = absurd h
handle-IsOf env file connection sdk (link server_url) h = absurd h
handle-IsOf env file connection sdk command h =
    (handle_with-IsGood (IsOf sdk) env sdk (permits sdk) (λ u. refl) file connection command
      h).all_of

-- A run without effects and with a value goes on with the value.
pub >>=-eq-next :
    {A : Type 0} {B : Type 0} (run : Run A) (k : A → Run B) {a : A}
    → run.effects ≡ []
    → run.result ≡ resolved a
    → (run >>= k) ≡ k a
>>=-eq-next run k silent h = rw (silent, h) refl

-- A command that needs a login sends all its requests with one SDK, the one that was set or that the
-- connection file gives, and neither opens a browser nor writes the connection file.
pub execute-IsOf :
    (env : Environment) (file : Option Stored) (sdk : Option AccountManager) (used : AccountManager)
    (command : Command)
    → NeedsLogin command
    → (gate env (deserialize_connection_info env file) sdk command).result ≡ resolved (some used)
    → All (IsOf used) (execute env file sdk command).effects
unfolding execute
execute-IsOf env file sdk used command n h =
    let connection = deserialize_connection_info env file in
    rw
      (>>=-eq-next (gate env connection sdk command) _ (gate-eq-nil env connection sdk command n) h)
      (handle-IsOf env file connection used command n)

abbrev pub NeverSaves : Effect → Type 0
NeverSaves (saves stored) = ⊥
NeverSaves _ = Unit

pub IsOf-NeverSaves : (sdk : AccountManager) (l : List Effect) → All (IsOf sdk) l → All NeverSaves l
IsOf-NeverSaves sdk [] h = tt
IsOf-NeverSaves sdk (saves stored ∷ l) h = absurd h.0
IsOf-NeverSaves sdk (_ ∷ l) h = (tt, IsOf-NeverSaves sdk l h.1)

pub stays_or_goes :
    (l : List Effect) (file : Option Stored)
    → All NeverSaves l
    → (file_after l file ≡ file) ⊎ (file_after l file ≡ none)
unfolding file_after
stays_or_goes [] file h = inl refl
stays_or_goes (saves stored ∷ l) file h = absurd h.0
stays_or_goes (forgets ∷ l) file h = elim (stays_or_goes l none h.1) [
  | inl same ↦ inr same
  | inr gone ↦ inr gone
]
stays_or_goes (_ ∷ l) file h = stays_or_goes l file h.1
