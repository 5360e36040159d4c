-- ===== src/Acquisition/UpdateCheck.antt =====
-- `queryUpdateWithCurrentPackage`.
pub mod Laws
use code_push.Common.{
  ℕ, String, Bool, true, false, Option, none, some, List, [], ◌∷◌, ◌++◌, eqb, if◌then◌else◌, not,
  is_truthy,
}
use code_push.Common.Json.{codes}
use code_push.Common.Promise.{Failure, error}
use code_push.Acquisition.{
  get, Package, UpdateInfo, Update, remote_package, native_update, Parsed, unparsable, update_info,
  Response, HttpResult, network_error, responded, Call, Handled, invoke, Action, throws, requests,
  AcquisitionManager, status_error,
}
use code_push.Acquisition.Query.{query_stringify}

abbrev boolean_text : Bool → String
boolean_text true = "true"
boolean_text false = "false"

abbrev optional_boolean : Option Bool → Option String
optional_boolean none = none
optional_boolean (some b) = some (boolean_text b)

-- The properties of `updateRequest`, in their order.
abbrev pub update_request : AcquisitionManager → String → Package → List (String × Option String)
update_request m app_version p =
    ("deploymentKey", some m.deployment_key)
    ∷ ("appVersion", some app_version)
    ∷ ("packageHash", p.package_hash)
    ∷ ("isCompanion", optional_boolean m.ignore_app_version)
    ∷ ("label", p.label)
    ∷ ("clientUniqueId", m.client_unique_id)
    ∷ []

-- The literal `remotePackage`.
unfoldable pub remote_of : AcquisitionManager → UpdateInfo → Update
remote_of m u =
    remote_package
      (record {
        deployment_key = some m.deployment_key;
        description = u.description;
        label = u.label;
        app_version = u.app_version;
        is_mandatory = u.is_mandatory;
        package_hash = u.package_hash;
        package_size = u.package_size;
      })
      u.download_url

on_update_info : AcquisitionManager → Option UpdateInfo → Call Update
unfolding remote_of
on_update_info m none = (none, none)
on_update_info m (some u) =
    if u.update_app_version
    then (none, some (native_update u.app_version))
    else if not u.is_available
    then (none, none)
    else (none, some (remote_of m u))

on_parsed : AcquisitionManager → Parsed → Call Update
unfolding on_update_info
on_parsed m (unparsable e) = (some e, none)
on_parsed m (update_info u) = on_update_info m u

unfoldable pub on_update_response : AcquisitionManager → HttpResult → Call Update
unfolding on_parsed
on_update_response m (network_error e) = (some e, none)
on_update_response m (responded r) =
    if not (eqb r.status_code 200) then (some (status_error r), none) else on_parsed m r.parsed

wrong_package : Failure
wrong_package = error "Calling common acquisition SDK with incorrect package"

query_with_version :
    Bool → AcquisitionManager → Package → Option String → Action (Option String) Update
unfolding on_update_response wrong_package
query_with_version callback m p none = throws wrong_package
query_with_version callback m p (some app_version) =
    if not (is_truthy app_version)
    then throws wrong_package
    else requests get
        (codes m.server_url
          ++ codes "updateCheck?"
          ++ query_stringify (update_request m app_version p))
        none (λ result. invoke callback (on_update_response m result))

-- `callback` says whether a callback was given. It is called without a test.
unfoldable pub query_update_with_current_package :
    Bool → AcquisitionManager → Option Package → Action (Option String) Update
unfolding query_with_version
query_update_with_current_package callback m none = throws wrong_package
query_update_with_current_package callback m (some p) =
    query_with_version callback m p p.app_version
