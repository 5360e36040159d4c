-- ===== src/Executor/Good.antt =====
-- Two properties of runs that follow the way in which commands are put together: every effect is one
-- of a kind that is allowed, and the run settles where all that it waits for does.
pub mod Rules
pub mod Commands
pub mod Releases
pub mod Uploads
use code_push.Common.{
  ◌≡◌, ◌≢◌, ◌⊎◌, refl, ℕ, String, Bool, true, false, Option, none, some, List, [], ◌∷◌, ◌++◌,
  if◌then◌else◌, Option-cases, inl, inr, arith,
}
use code_push.Common.Promise.{Done, Failure, Promise, resolved, rejected, pending}
use code_push.Management.{AccountManager, Operation}
use code_push.Executor.{
  Effect, calls, checks, uploads, saves, forgets, runs, creates, deletes, Upload, Run, pure,
  throwing, settling, given, or_rethrow, or_throw, guard, doing, catching, ◌>>=◌, ◌>>◌, after,
  handled,
}
use code_push.Executor.Sdk.{
  Environment, call, is_authenticated, upload, patched, forgets_if_unauthorized,
}
use code_push.Executor.Listing.{all, both}
use code_push.Executor.Prompt.{confirm}

abbrev pub IsSettled : {A : Type 0} → Promise A → Type 0
IsSettled (resolved a) = Unit
IsSettled (rejected e) = Unit
IsSettled pending = ⊥

-- All that a command waits for settles: the prompt is answered, requests are, folders are deleted
-- or not, and child processes end.
pub record IsReliable (env : Environment) : Type 0 where
  pub answered : env.answer ≢ none
  pub send : (sdk : AccountManager) (operation : Operation) → IsSettled (env.send sdk operation)
  pub check : (sdk : AccountManager) (throws : Bool) → IsSettled (env.key_is_valid sdk throws)
  pub upload : (sdk : AccountManager) (u : Upload) → IsSettled (env.upload sdk u)
  pub delete : (folder : String) → IsSettled (env.delete folder)
  pub exit : (command : List String) → IsSettled (env.react.exit_code command)
  pub log : (command : List String) → IsSettled (env.debug.log_ends command)

abbrev pub All : (Effect → Type 0) → List Effect → Type 0
All P [] = Unit
All P (effect ∷ effects) = P effect × All P effects

pub record IsGood {A : Type 0} (P : Effect → Type 0) (env : Environment) (run : Run A)
    : Type 0 where
  pub all_of : All P run.effects
  pub ends : IsReliable env → IsSettled run.result

-- What a command with this SDK needs, but for its uploads: its calls and checks, and that the
-- connection file, folders and child processes may be touched.
pub record Permits (P : Effect → Type 0) (sdk : AccountManager) : Type 0 where
  pub call : (operation : Operation) → P (calls sdk operation)
  pub check : (throws : Bool) → P (checks sdk throws)
  pub forget : P forgets
  pub run : (command : List String) → P (runs command)
  pub create : (folder : String) → P (creates folder)
  pub delete : (folder : String) → P (deletes folder)
