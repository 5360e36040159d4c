-- ===== src/Executor.antt =====
-- cli/script/command-executor.ts: what a command does to the outside, in its order, and what it is
-- told by it. The commands stand in the modules below.
pub mod Project
pub mod Sdk
pub mod Connection
pub mod Prompt
pub mod Login
pub mod Account
pub mod Listing
pub mod Deployments
pub mod Release
pub mod Cordova
pub mod ReactVersion
pub mod React
pub mod Debug
pub mod Execute
pub mod Good
pub mod Outcome
pub mod Tables
pub mod Tests
use code_push.Common.{
  ◌⊎◌, inl, inr, ℕ, String, Bool, true, false, Option, none, some, List, [], ◌∷◌, ◌++◌,
  if◌then◌else◌,
}
use code_push.Common.Promise.{Done, done, Failure, error, Promise, resolved, rejected, pending}
use code_push.Management.{AccountManager, Operation, PackageInfo}

-- The file .code-push.config: an object as it was written, or an older one with `accessKeyName`.
pub record Stored : Type 0 where
  pub access_key_name : Option String
  pub access_key : Option String
  pub custom_server_url : Option String
  pub preserve_access_key_on_logout : Option Bool
  pub proxy : Option String
  pub no_proxy : Option Bool

-- The arguments of `sdk.release`.
pub record Upload : Type 0 where
  pub app_name : String
  pub deployment_name : Option String
  pub path : String
  pub target_version : Option String
  pub metadata : PackageInfo

-- What a command does: a call of the SDK, a check of its key, an upload, a browser window, a write
-- or a deletion of the connection file, a child process, and a folder created or deleted.
pub data Effect : Type 0 where
  calls : AccountManager → Operation → Effect
  checks : AccountManager → (throw_if_unauthorized : Bool) → Effect
  uploads : AccountManager → Upload → Effect
  opens : (url : String) → Effect
  saves : Stored → Effect
  forgets : Effect
  runs : List String → Effect
  creates : (folder : String) → Effect
  deletes : (folder : String) → Effect

pub record Run (A : Type 0) : Type 0 where
  pub effects : List Effect
  pub result : Promise A

module _ {A : Type 0} where
  abbrev pub pure : A → Run A
  pure a = record { effects = []; result = resolved a }

  -- `throw` in a handler of `then`
  abbrev pub throwing : Failure → Run A
  throwing e = record { effects = []; result = rejected e }

  abbrev pub settling : Promise A → Run A
  settling p = record { effects = []; result = p }

  -- A value, or the error that its constructor throws.
  abbrev pub or_rethrow : Failure ⊎ A → Run A
  or_rethrow (inl e) = throwing e
  or_rethrow (inr a) = pure a

  abbrev pub or_throw : Option A → Failure → Run A
  or_throw none e = throwing e
  or_throw (some a) e = pure a

-- One run where there is no value, and another one where there is.
abbrev pub given : {A B : Type 0} → Option A → Run B → (A → Run B) → Run B
given none without with = without
given (some a) without with = with a

-- `if (!test) throw e`
abbrev pub guard : Bool → Failure → Run Done
guard true e = pure done
guard false e = throwing e

abbrev pub doing : Effect → Run Done
doing effect = record { effects = effect ∷ []; result = resolved done }

abbrev after : {A B : Type 0} → List Effect → Promise A → (A → Run B) → Run B
after effects (resolved a) k =
    let rest = k a in record { effects = effects ++ rest.effects; result = rest.result }
after effects (rejected e) k = record { effects = effects; result = rejected e }
after effects pending k = record { effects = effects; result = pending }

infixl 5 ◌>>=◌ ◌>>◌
-- `run.then(k)`
abbrev pub ◌>>=◌ : {A B : Type 0} → Run A → (A → Run B) → Run B
run >>= k = after run.effects run.result k

abbrev pub ◌>>◌ : {A B : Type 0} → Run A → Run B → Run B
run >> next = run >>= λ _. next

abbrev handled : {A : Type 0} → List Effect → Promise A → (Failure → Run A) → Run A
handled effects (resolved a) k = record { effects = effects; result = resolved a }
handled effects (rejected e) k =
    let rest = k e in record { effects = effects ++ rest.effects; result = rest.result }
handled effects pending k = record { effects = effects; result = pending }

-- `run.catch(k)`
abbrev pub catching : {A : Type 0} → Run A → (Failure → Run A) → Run A
catching run k = handled run.effects run.result k
