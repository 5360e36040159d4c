-- ===== src/Acquisition/StatusReport.antt =====
-- `reportStatusDeploy` and `reportStatusDownload`. `reportStatusDeploy` looks at its last argument
-- by `arguments`, so it takes the list of its arguments.
pub mod Laws
use code_push.Common.{
  ℕ, ◌-◌, suc, zero, String, ◌<>◌, Bool, true, false, ◌||◌, Option, none, some, List, [], ◌∷◌, ◌++◌,
  ◌==◌, eqb, if◌then◌else◌, not, is_truthy,
}
use code_push.Common.Json.{codes}
use code_push.Common.Promise.{Failure, error}
use code_push.Acquisition.{
  post, Package, Response, HttpResult, network_error, responded, Handled, calls, silent, crashes,
  Action, throws, returns, requests, AcquisitionManager, status_error,
}

-- The arguments that callers pass. A callback comes with its source text.
pub data Arg : Type 0 where
  undefined : Arg
  null : Arg
  text : String → Arg
  deployed : Package → Arg
  callback : String → Arg

abbrev is_truthy_arg : Arg → Bool
is_truthy_arg undefined = false
is_truthy_arg null = false
is_truthy_arg (text s) = is_truthy s
is_truthy_arg (deployed p) = true
is_truthy_arg (callback source) = true

-- The parameter at a position: `undefined` where there is no argument.
abbrev param : ℕ → List Arg → Arg
param n [] = undefined
param zero (a ∷ args) = a
param (suc n) (a ∷ args) = param n args

-- `arguments[arguments.length - 1]`
abbrev last_arg : List Arg → Arg
last_arg [] = undefined
last_arg (a ∷ []) = a
last_arg (a ∷ b ∷ args) = last_arg (b ∷ args)

abbrev label_of : Arg → Option String
label_of (deployed p) = p.label
label_of _ = none

abbrev app_version_of : Arg → Option String
app_version_of (deployed p) = p.app_version
app_version_of _ = none

-- The body of the request; a field that was not set is `none`.
pub record DeploymentStatusReport : Type 0 where
  pub app_version : Option String
  pub deployment_key : String
  pub client_unique_id : Option String
  pub label : Option String
  pub status : Option String
  pub previous_label_or_app_version : Option Arg
  pub previous_deployment_key : Option Arg

abbrev optional_arg : Arg → Option Arg
optional_arg a = if is_truthy_arg a then some a else none

abbrev optional_text : Option String → Option String
optional_text none = none
optional_text (some s) = if is_truthy s then some s else none

-- The `switch` on the status: `some` for the two statuses that are reported.
unfoldable pub known_status : Arg → Option String
known_status (text s) =
    if s == "DeploymentSucceeded" || s == "DeploymentFailed" then some s else none
known_status _ = none

-- A value joined to a text.
abbrev text_of : Arg → String
text_of undefined = "undefined"
text_of null = "null"
text_of (text s) = s
text_of (deployed p) = "[object Object]"
text_of (callback source) = source

unfoldable pub status_failure : Arg → Failure
status_failure status =
    if not (is_truthy_arg status)
    then error "Missing status argument."
    else error ("Unrecognized status \"" <> text_of status <> "\".")

-- The `default` of the switch, with the declared parameter `callback`. A value that is no function
-- cannot be called.
refuse : Arg → Arg → Handled (Unit {0})
unfolding status_failure
refuse (callback source) status = calls (some (status_failure status), none)
refuse other status = if is_truthy_arg other then crashes else silent

-- The handler of the response, of both reports.
on_reported : HttpResult → Handled (Unit {0})
on_reported (network_error e) = calls (some e, none)
on_reported (responded r) =
    if not (eqb r.status_code 200) then calls (some (status_error r), none) else calls (none, none)

unfoldable pub on_report_response : Bool → HttpResult → Handled (Unit {0})
unfolding on_reported
on_report_response true result = on_reported result
on_report_response false result = silent

abbrev is_callback : Arg → Bool
is_callback (callback source) = true
is_callback _ = false

send_report :
    AcquisitionManager
    → List Arg
    → DeploymentStatusReport
    → Action DeploymentStatusReport (Unit {0})
unfolding on_report_response
send_report m args body =
    requests post (codes m.server_url ++ codes "reportStatus/deploy")
      (record body {
        previous_label_or_app_version = optional_arg (param 2 args);
        previous_deployment_key = optional_arg (param 3 args);
      })
      (on_report_response (is_callback (last_arg args)))

abbrev plain_report : AcquisitionManager → DeploymentStatusReport
plain_report m = record {
  app_version = some m.app_version;
  deployment_key = m.deployment_key;
  client_unique_id = optional_text m.client_unique_id;
  label = none;
  status = none;
  previous_label_or_app_version = none;
  previous_deployment_key = none;
}

report_package :
    AcquisitionManager → List Arg → Option String → Action DeploymentStatusReport (Unit {0})
unfolding send_report refuse
report_package m args none = returns (refuse (param 4 args) (param 1 args))
report_package m args (some status) = send_report m args (record (plain_report m) {
  label = label_of (param 0 args);
  app_version = app_version_of (param 0 args);
  status = some status;
})

unfoldable pub report_status_deploy :
    AcquisitionManager → List Arg → Action DeploymentStatusReport (Unit {0})
unfolding report_package known_status
report_status_deploy m args =
    if is_truthy_arg (param 0 args)
    then report_package m args (known_status (param 1 args))
    else send_report m args (plain_report m)

pub record DownloadReport : Type 0 where
  pub client_unique_id : Option String
  pub deployment_key : String
  pub label : Option String

unfoldable pub report_status_download :
    Bool → AcquisitionManager → Package → Action DownloadReport (Unit {0})
unfolding on_report_response
report_status_download has_callback m downloaded =
    requests post (codes m.server_url ++ codes "reportStatus/download")
      (record {
        client_unique_id = m.client_unique_id;
        deployment_key = m.deployment_key;
        label = downloaded.label;
      })
      (on_report_response has_callback)
