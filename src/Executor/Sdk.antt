-- ===== src/Executor/Sdk.antt =====
-- The SDK as `getSdk` patches it, and what else the commands are told by the outside.
use code_push.Common.{
  ℕ, String, Bool, false, Option, none, some, List, [], ◌∷◌, eqb, is_truthy, if◌then◌else◌,
}
use code_push.Common.Promise.{Done, Promise, resolved, rejected, pending}
use code_push.Management.{AccountManager, Operation, new_account_manager}
use code_push.Executor.Project.{CordovaProject, ReactProject, DebugTools}
use code_push.Executor.{Effect, calls, checks, uploads, forgets, Upload, Run, or_rethrow}

-- A deployment of the server's list, with the label of its package.
pub record Deployment : Type 0 where
  pub name : String
  pub package_label : Option String

-- What the outside answers: the prompt of `confirm`, where a missing answer is an aborted prompt and
-- a missing text is no text; the prompt for a token; the SDK's methods without the patch, as what
-- their promises settle with; the deployments in the body of a response; the libraries
-- email-validator and semver; node's `os`, `path`, `fs` and `process`. In `proxies` stand
-- HTTPS_PROXY, https_proxy, HTTP_PROXY and http_proxy. `is_directory` and `has_file` are `lstatSync`
-- and `statSync`, which throw where nothing is there.
pub record Environment : Type 0 where
  pub answer : Option (Option String)
  pub token : Option String
  pub send : AccountManager → Operation → Promise Done
  pub key_is_valid : AccountManager → Bool → Promise Bool
  pub upload : AccountManager → Upload → Promise Done
  pub deployments : AccountManager → Operation → List Deployment
  pub valid_email : String → Bool
  pub valid_range : Option String → Bool
  pub valid_version : String → Bool
  pub hostname : String
  pub cli_version : String
  pub proxies : List (Option String)
  pub node_arguments : Option (List String)
  pub working_directory : String
  pub temporary_directory : String
  pub join : List String → String
  pub is_directory : String → Option Bool
  pub has_file : String → Bool
  pub delete : String → Promise Done
  pub can_create : String → Bool
  pub cordova : CordovaProject
  pub react : ReactProject
  pub debug : DebugTools

abbrev pub has_status : ℕ → Option ℕ → Bool
has_status n none = false
has_status n (some m) = eqb m n

-- The handler of `catch` in `getSdk`, as the effect that it has: a call that is unauthorised deletes
-- the connection file.
unfoldable pub forgets_if_unauthorized : {A : Type 0} → Promise A → List Effect
forgets_if_unauthorized (resolved a) = []
forgets_if_unauthorized (rejected e) = if has_status 401 e.status_code then forgets ∷ [] else []
forgets_if_unauthorized pending = []

-- A method of the patched SDK.
unfoldable pub patched : {A : Type 0} → Effect → Promise A → Run A
unfolding forgets_if_unauthorized
patched effect p = record { effects = effect ∷ forgets_if_unauthorized p; result = p }

unfoldable pub call : Environment → AccountManager → Operation → Run Done
unfolding patched
call env sdk operation = patched (calls sdk operation) (env.send sdk operation)

unfoldable pub is_authenticated : Environment → AccountManager → Bool → Run Bool
unfolding patched
is_authenticated env sdk throw_if_unauthorized =
    patched (checks sdk throw_if_unauthorized) (env.key_is_valid sdk throw_if_unauthorized)

unfoldable pub upload : Environment → AccountManager → Upload → Run Done
unfolding patched
upload env sdk u = patched (uploads sdk u) (env.upload sdk u)

abbrev key_text : Option String → String
key_text none = ""
key_text (some key) = key

-- `getSdk`: the constructor throws without an access key.
unfoldable pub get_sdk :
    Environment → Option String → Option String → Option String → Run AccountManager
unfolding new_account_manager
get_sdk env access_key server_url proxy = or_rethrow (
    new_account_manager (key_text access_key) (("X-CodePush-CLI-Version", env.cli_version) ∷ [])
      server_url proxy)

-- The first text of `a || b || ...` that is not empty.
abbrev first_truthy : List (Option String) → Option String
first_truthy [] = none
first_truthy (none ∷ l) = first_truthy l
first_truthy (some s ∷ l) = let rest = first_truthy l in if is_truthy s then some s else rest

abbrev pub is_set : Option Bool → Bool
is_set none = false
is_set (some b) = b

-- `getProxy`; null, undefined and the empty text are all `none`.
unfoldable pub get_proxy : Environment → Option String → Option Bool → Option String
get_proxy env proxy no_proxy = if is_set no_proxy then none else first_truthy (proxy ∷ env.proxies)
