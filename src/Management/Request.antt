-- ===== src/Management/Request.antt =====
-- `makeApiRequest`, `isAuthenticated`, the headers and the errors.
pub mod Laws
use code_push.Common.{
  ℕ, String, ◌<>◌, Bool, true, false, Option, none, some, List, [], ◌∷◌, ◌++◌, eqb, if◌then◌else◌,
  is_truthy, not, ◌||◌, ◌&&◌, ◌==◌,
}
use code_push.Common.Json.{codes}
use code_push.Management.{AccountManager, Operation, Body, Method, get}

-- `CodePushError`; a body may have no message.
pub record CodePushError : Type 0 where
  pub message : Option String
  pub status_code : ℕ

-- The error that superagent hands to the callback; a status 0 counts as none.
pub record RequestError : Type 0 where
  pub status : Option ℕ
  pub syscall : Option String
  pub message : String

-- A response, with what `JSON.parse` gives for its text: a body that is not null, zero, false or
-- the empty text, or none.
pub record Reply (J : Type 0) : Type 0 where
  pub status : ℕ
  pub ok : Bool
  pub text : String
  pub body : Option J

-- What becomes of a promise whose callback was called. The callback can throw, and the promise is
-- never settled then.
pub data Outcome (A : Type 0) : Type 0 where
  resolves : A → Outcome A
  rejects : CodePushError → Outcome A
  crashes : Outcome A

abbrev or_status : Option ℕ → ℕ → ℕ
or_status none n = n
or_status (some m) n = if eqb m 0 then n else m

abbrev error_status : Option RequestError → Option ℕ
error_status none = none
error_status (some e) = e.status

abbrev failed_lookup : Option String → Bool
failed_lookup none = false
failed_lookup (some s) = s == "getaddrinfo"

-- The assignment to `error.message`.
abbrev with_hint : RequestError → RequestError
with_hint e =
    if failed_lookup e.syscall
    then record e {
      message =
          "Unable to connect to the CodePush server. Are you offline, or behind a firewall or proxy?\n("
          <> e.message <> ")";
    }
    else e

abbrev is_error : Option RequestError → Bool
is_error none = false
is_error (some e) = true

module _ {J : Type 0} where
  abbrev reply_status : Option (Reply J) → Option ℕ
  reply_status none = none
  reply_status (some r) = some r.status

  -- `getErrorStatus`
  unfoldable pub get_error_status : Option RequestError → Option (Reply J) → ℕ
  get_error_status e r = or_status (error_status e) (or_status (reply_status r) 504)

  -- `getErrorMessage`
  unfoldable pub get_error_message : RequestError → Option (Reply J) → String
  get_error_message e none = e.message
  get_error_message e (some r) = if is_truthy r.text then r.text else e.message

  -- `getCodePushError`; it reads a field of the error, and throws where there is none.
  unfoldable pub get_code_push_error :
      {A : Type 0} → Option RequestError → Option (Reply J) → Outcome A
  unfolding get_error_status get_error_message
  get_code_push_error none r = crashes
  get_code_push_error (some e) r = rejects (record {
    message = some (get_error_message (with_hint e) r);
    status_code = get_error_status (some (with_hint e)) r;
  })

  -- The handler of `end` in `isAuthenticated`.
  unfoldable pub on_authenticated : Bool → Option RequestError → Option (Reply J) → Outcome Bool
  unfolding get_error_status get_code_push_error
  on_authenticated throw_if_unauthorized e r =
      let status = get_error_status e r in
      let authenticated = eqb status 200 in
      if is_error e && not (eqb status 401)
      then get_code_push_error e r
      else if not authenticated && throw_if_unauthorized
      then get_code_push_error e r
      else resolves authenticated

  abbrev is_none : Option J → Bool
  is_none none = true
  is_none (some body) = false

  abbrev pub message_or_text : (J → Option String) → Reply J → Option String
  message_or_text message_of r = elim r.body [ none ↦ some r.text | some body ↦ message_of body ]

  -- The handler of `end` in `makeApiRequest`, for a body with the message `message_of`. It reads
  -- fields of the response, and throws where there is neither an error nor a response.
  unfoldable pub on_end :
      (J → Option String) → Bool → Option RequestError → Option (Reply J) → Outcome (Option J)
  unfolding get_error_status get_code_push_error
  on_end message_of expect (some e) r = get_code_push_error (some e) r
  on_end message_of expect none none = crashes
  on_end message_of expect none (some r) =
      if r.ok
      then if expect && is_none r.body
        then rejects
            (record { message = some ("Could not parse response: " <> r.text); status_code = 500 })
        else resolves r.body
      else rejects (record {
        message = message_or_text message_of r;
        status_code = get_error_status none (some r);
      })

-- A request that is ready to be sent.
pub record Request : Type 0 where
  pub method : Method
  pub url : List ℕ
  pub proxy : Option String
  pub headers : List (String × String)
  pub body : Option Body

-- `attachCredentials`: the calls of `set`. The version is that of the package's package.json.
unfoldable pub attach_credentials : String → AccountManager → List (String × String)
attach_credentials version m =
    m.custom_headers
    ++ ("Accept", "application/vnd.code-push.v2+json")
      ∷ ("Authorization", "Bearer " <> m.access_key)
      ∷ ("X-CodePush-SDK-Version", version)
      ∷ []

abbrev pub proxy_of : Option String → Option String
proxy_of none = none
proxy_of (some proxy) = if is_truthy proxy then some proxy else none

-- The header that goes with a body.
abbrev content_header : Option Body → Option String → List (String × String)
content_header (some body) (some content_type) = ("Content-Type", content_type) ∷ []
content_header _ _ = []

-- The request that `makeApiRequest` sends.
unfoldable pub make_api_request : String → AccountManager → Operation → Request
unfolding attach_credentials
make_api_request version m operation = record {
  method = operation.method;
  url = codes m.server_url ++ operation.endpoint;
  proxy = proxy_of m.proxy;
  headers = attach_credentials version m ++ content_header operation.body operation.content_type;
  body = operation.body;
}

-- The request that `isAuthenticated` sends.
unfoldable pub authentication_request : String → AccountManager → Request
unfolding attach_credentials
authentication_request version m = record {
  method = get;
  url = codes m.server_url ++ codes "/authenticated";
  proxy = proxy_of m.proxy;
  headers = attach_credentials version m;
  body = none;
}
