-- ===== src/Management.antt =====
-- sdk/script/management-sdk.ts: the requests of the management SDK and what becomes of their
-- results. superagent is the library that sends them: a request is the list of its headers in the
-- order of the calls of `set`, and its result is what `end` hands to the callback.
pub mod Request
pub mod Endpoints
pub mod Sessions
pub mod Release
mod Tests
use code_push.Common.{
  ℕ, String, Bool, true, false, Option, none, some, List, [], ◌∷◌, if◌then◌else◌, is_truthy, ◌⊎◌,
  inl, inr,
}
use code_push.Common.Promise.{Failure, error}

pub data Method : Type 0 where
  get post patch del : Method

-- The private fields of `AccountManager`. No custom headers is the empty list.
pub record AccountManager : Type 0 where
  pub access_key : String
  pub custom_headers : List (String × String)
  pub server_url : String
  pub proxy : Option String

-- `PackageInfo`
pub record PackageInfo : Type 0 where
  pub app_version : Option String
  pub description : Option String
  pub label : Option String
  pub is_disabled : Option Bool
  pub is_mandatory : Option Bool
  pub rollout : Option ℕ

-- The objects that are handed to `JSON.stringify`.
pub data Body : Type 0 where
  access_key_request :
      (created_by : Option String) (friendly_name : Option String) (ttl : Option ℕ) → Body
  app_creation : (name os platform : String) (manually_provision_deployments : Bool) → Body
  named : String → Body
  package_info : PackageInfo → Body

-- What a method resolves with, from the body of the response: null, a field, the access key's
-- renamed fields, with or without its secret, or the app that was sent.
pub data Answer : Type 0 where
  null : Answer
  field : String → Answer
  renamed_key : (with_key : Bool) → Answer
  created_app : (name os platform : String) (manually_provision_deployments : Bool) → Answer

-- The arguments of `makeApiRequest`, and what the method makes of the response.
pub record Operation : Type 0 where
  pub method : Method
  pub endpoint : List ℕ
  pub body : Option Body
  pub expect_response_body : Bool
  pub content_type : Option String
  pub answer : Answer

json_type : Option String
json_type = some "application/json;charset=UTF-8"

-- `this.get(endpoint)`, `this.post(...)`, `this.patch(...)`, `this.del(endpoint)`, each with the
-- handler in its `then`.
abbrev pub getting : List ℕ → Answer → Operation
getting endpoint answer = record {
  method = get;
  endpoint = endpoint;
  body = none;
  expect_response_body = true;
  content_type = none;
  answer = answer;
}

unfoldable pub posting : List ℕ → Option Body → Bool → Answer → Operation
unfolding json_type
posting endpoint body expect answer = record {
  method = post;
  endpoint = endpoint;
  body = body;
  expect_response_body = expect;
  content_type = json_type;
  answer = answer;
}

unfoldable pub patching : List ℕ → Body → Answer → Operation
unfolding json_type
patching endpoint body answer = record {
  method = patch;
  endpoint = endpoint;
  body = some body;
  expect_response_body = false;
  content_type = json_type;
  answer = answer;
}

abbrev pub deleting : List ℕ → Operation
deleting endpoint = record {
  method = del;
  endpoint = endpoint;
  body = none;
  expect_response_body = false;
  content_type = none;
  answer = null;
}

-- `serverUrl || AccountManager.SERVER_URL`
abbrev server_or_default : Option String → String
server_or_default none = "https://codepush-management.azurewebsites.net"
server_or_default (some url) =
    if is_truthy url then url else "https://codepush-management.azurewebsites.net"

-- The constructor: it throws without an access key.
unfoldable pub new_account_manager :
    String → List (String × String) → Option String → Option String → Failure ⊎ AccountManager
new_account_manager access_key custom_headers server_url proxy =
    if is_truthy access_key
    then inr (record {
      access_key = access_key;
      custom_headers = custom_headers;
      server_url = server_or_default server_url;
      proxy = proxy;
    })
    else inl (error "A token must be specified.")
