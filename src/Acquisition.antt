-- ===== src/Acquisition.antt =====
-- sdk/script/acquisition-sdk.ts: the configuration, the data of the protocol, and the calls of the
-- HTTP requester and of the callback as values. What `JSON.parse` gives for the body of a response
-- stands beside its text, and the object handed to `JSON.stringify` is the body of a request.
pub mod Query
pub mod UpdateCheck
pub mod StatusReport
mod Tests
use code_push.Common.{
  ℕ, String, ◌<>◌, Bool, true, false, Option, none, some, List, [], ◌∷◌, ◌==◌, eqb, if◌then◌else◌,
}
use code_push.Common.Json.{codes}
use code_push.Common.Promise.{Failure, error}
use code_push.Common.Decimal.{to_decimal}

pub data Verb : Type 0 where
  get post : Verb

-- `Package`; only `appVersion` is compulsory, and it may still be missing at run time.
pub record Package : Type 0 where
  pub deployment_key : Option String
  pub description : Option String
  pub label : Option String
  pub app_version : Option String
  pub is_mandatory : Option Bool
  pub package_hash : Option String
  pub package_size : Option ℕ

-- `UpdateCheckResponse`, as `updateInfo` of the body; a missing flag is false.
pub record UpdateInfo : Type 0 where
  pub update_app_version : Bool
  pub is_available : Bool
  pub description : Option String
  pub label : Option String
  pub app_version : Option String
  pub is_mandatory : Option Bool
  pub package_hash : Option String
  pub package_size : Option ℕ
  pub download_url : Option String

-- `RemotePackage` and `NativeUpdateNotification`.
pub data Update : Type 0 where
  remote_package : Package → (download_url : Option String) → Update
  native_update : (app_version : Option String) → Update

-- What the `try` block makes of the body: it throws, or gives `updateInfo`, which may be missing.
pub data Parsed : Type 0 where
  unparsable : Failure → Parsed
  update_info : Option UpdateInfo → Parsed

pub record Response : Type 0 where
  pub status_code : ℕ
  pub body : Option String
  pub parsed : Parsed

-- The arguments of the requester's callback.
pub data HttpResult : Type 0 where
  network_error : Failure → HttpResult
  responded : Response → HttpResult

-- The arguments of a callback.
abbrev pub Call : Type 0 → Type 0
Call A = Option Failure × Option A

-- What a handler does: it calls the callback, returns, or throws since the callback is missing.
pub data Handled (A : Type 0) : Type 0 where
  calls : Call A → Handled A
  silent : Handled A
  crashes : Handled A

-- `callback(...)`
abbrev pub invoke : {A : Type 0} → Bool → Call A → Handled A
invoke true c = calls c
invoke false c = crashes

-- What a method does: it throws, returns after it has told the callback, or sends a request, with
-- the handler of its result.
pub data Action (Body A : Type 0) : Type 0 where
  throws : Failure → Action Body A
  returns : Handled A → Action Body A
  requests : Verb → List ℕ → Body → (HttpResult → Handled A) → Action Body A

-- The private fields of `AcquisitionManager`.
pub record AcquisitionManager : Type 0 where
  pub app_version : String
  pub client_unique_id : Option String
  pub deployment_key : String
  pub ignore_app_version : Option Bool
  pub server_url : String

pub record Configuration : Type 0 where
  pub app_version : String
  pub client_unique_id : Option String
  pub deployment_key : String
  pub server_url : String
  pub ignore_app_version : Option Bool

-- `url.slice(-1) === "/"`
unfoldable pub ends_with_slash : List ℕ → Bool
ends_with_slash [] = false
ends_with_slash (n ∷ []) = eqb n b'/'
ends_with_slash (n ∷ m ∷ l) = ends_with_slash (m ∷ l)

-- The constructor.
unfoldable pub new_manager : Configuration → AcquisitionManager
unfolding ends_with_slash
new_manager c = record {
  app_version = c.app_version;
  client_unique_id = c.client_unique_id;
  deployment_key = c.deployment_key;
  ignore_app_version = c.ignore_app_version;
  server_url = if ends_with_slash (codes c.server_url) then c.server_url else c.server_url <> "/";
}

-- A missing value is joined to a text as "undefined".
abbrev pub text_or_undefined : Option String → String
text_or_undefined none = "undefined"
text_or_undefined (some s) = s

-- `new Error(response.statusCode + ": " + response.body)`
unfoldable pub status_error : Response → Failure
status_error r = error (to_decimal r.status_code <> ": " <> text_or_undefined r.body)
