-- ===== src/Acquisition/Tests.antt =====
-- Runs of the acquisition calls, and their theorems at concrete data.
use code_push.Common.{
  ℕ, ◌≡◌, refl, ◌↔◌, inr, true, false, none, some, List, [], ◌∷◌, ◌++◌, map, eq_iff, arith,
}
use code_push.Common.Json.{codes}
use code_push.Acquisition.{
  get, post, Package, UpdateInfo, Update, remote_package, update_info, Response, HttpResult,
  responded, Handled, requests, AcquisitionManager, Configuration, new_manager, ends_with_slash,
}
use code_push.Acquisition.Query.{query_stringify}
use code_push.Acquisition.Query.Laws.{parse_query, bytes_of, parse_query-query_stringify}
use code_push.Acquisition.UpdateCheck.{
  update_request, remote_of, on_update_response, query_update_with_current_package,
}
use code_push.Acquisition.UpdateCheck.Laws.{
  query_update_with_current_package_lem, Offers, on_update_response_iff,
}
use code_push.Acquisition.StatusReport.{
  null, text, deployed, callback, report_status_deploy, on_report_response, DeploymentStatusReport,
}
use code_push.Acquisition.StatusReport.Laws.{report_status_deploy-known_status}

abbrev configuration : Configuration
configuration = record {
  app_version = "1.0";
  client_unique_id = some "id 7";
  deployment_key = "k&y";
  server_url = "https://host";
  ignore_app_version = none;
}

abbrev manager : AcquisitionManager
unfolding new_manager ends_with_slash
manager = new_manager configuration

abbrev v5 : Package
v5 = record {
  deployment_key = none;
  description = none;
  label = some "v5";
  app_version = some "1.0";
  is_mandatory = none;
  package_hash = some "0f";
  package_size = none;
}

abbrev info : UpdateInfo
info = record {
  update_app_version = false;
  is_available = true;
  description = some "fixes";
  label = some "v6";
  app_version = some "1.0";
  is_mandatory = some true;
  package_hash = some "7e";
  package_size = some 12;
  download_url = some "https://host/v6";
}

abbrev response : Response
response = record { status_code = 200; body = some "{}"; parsed = update_info (some info) }

abbrev offered : Package
offered = record {
  deployment_key = some "k&y";
  description = some "fixes";
  label = some "v6";
  app_version = some "1.0";
  is_mandatory = some true;
  package_hash = some "7e";
  package_size = some 12;
}

parse_query-query_stringify_example :
    parse_query (query_stringify (("a&b", some "x=y z") ∷ ("none", none) ∷ []))
    ≡ map bytes_of (("a&b", some "x=y z") ∷ ("none", none) ∷ [])
parse_query-query_stringify_example =
    parse_query-query_stringify ("a&b", some "x=y z") (("none", none) ∷ [])

query_update_test :
    (query : List ℕ) × (handler : HttpResult → Handled Update) × (query_update_with_current_package
        true manager
        (some v5)
      ≡ requests get (codes manager.server_url ++ codes "updateCheck?" ++ query) none handler)
    × (parse_query query ≡ map bytes_of (update_request manager "1.0" v5))
query_update_test =
    query_update_with_current_package_lem true manager v5 "1.0" refl
      (ground (arith, eq_iff "1.0" ""))

on_update_response_iff_example :
    (on_update_response manager (responded response)
      ≡ (none, some (remote_package offered (some "https://host/v6"))))
    ↔ Offers manager response (remote_package offered (some "https://host/v6"))
on_update_response_iff_example =
    on_update_response_iff manager offered (some "https://host/v6") response

offer_test :
    on_update_response manager (responded response)
    ≡ (none, some (remote_package offered (some "https://host/v6")))
unfolding on_update_response remote_of manager
offer_test = refl

known_status_test :
    (body : DeploymentStatusReport) × (report_status_deploy manager
        (deployed v5 ∷ text "DeploymentFailed" ∷ text "v4" ∷ null ∷ callback "f" ∷ [])
      ≡ requests post
          (codes manager.server_url ++ codes "reportStatus/deploy")
          body
          (on_report_response true))
    × (body.status ≡ some "DeploymentFailed")
    × (body.label ≡ some "v5")
    × (body.app_version ≡ some "1.0")
known_status_test =
    report_status_deploy-known_status manager v5 "DeploymentFailed" "f" (text "v4") null (inr refl)
