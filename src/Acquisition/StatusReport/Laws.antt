-- ===== src/Acquisition/StatusReport/Laws.antt =====
-- When a deployment is reported, and who is told of a wrong status.
use code_push.Common.{
  ℕ, ◌+◌, List, ◌≡◌, ◌≢◌, refl, ◌⊎◌, String, true, none, some, [], ◌∷◌, ◌++◌, eq_iff, arith,
}
use code_push.Common.Json.{codes}
use code_push.Acquisition.{post, Package, requests, AcquisitionManager}
use code_push.Acquisition.StatusReport.{
  Arg, text, deployed, callback, known_status, report_status_deploy, DeploymentStatusReport,
  on_report_response, plain_report, optional_arg,
}

known_status-eq-none :
    (s : String) → s ≢ "DeploymentSucceeded" → s ≢ "DeploymentFailed" → known_status (text s) ≡ none
unfolding known_status
known_status-eq-none s p q =
    ground (arith, eq_iff s "DeploymentSucceeded", eq_iff s "DeploymentFailed")

abbrev pub IsReported : String → Type 0
IsReported s = (s ≡ "DeploymentSucceeded") ⊎ (s ≡ "DeploymentFailed")

known_status-eq-some : (s : String) → IsReported s → known_status (text s) ≡ some s
unfolding known_status
known_status-eq-some s h =
    ground (arith, eq_iff s "DeploymentSucceeded", eq_iff s "DeploymentFailed")

abbrev pub length : List Arg → ℕ
length [] = 0
length (a ∷ l) = length l + 1

-- The body of the report of a package.
abbrev sent : AcquisitionManager → Package → String → Arg → Arg → DeploymentStatusReport
sent m p s label key = record (plain_report m) {
  label = p.label;
  app_version = p.app_version;
  status = some s;
  previous_label_or_app_version = optional_arg label;
  previous_deployment_key = optional_arg key;
}

-- With one of the two known statuses, a POST request to "reportStatus/deploy" reports the status,
-- label and version of the package, and its handler calls the callback.
pub report_status_deploy-known_status :
    (m : AcquisitionManager) (p : Package) (s source : String) (label key : Arg)
    → IsReported s
    → (body : DeploymentStatusReport) × (report_status_deploy m
          (deployed p ∷ text s ∷ label ∷ key ∷ callback source ∷ [])
        ≡ requests post
            (codes m.server_url ++ codes "reportStatus/deploy")
            body
            (on_report_response true))
      × (body.status ≡ some s)
      × (body.label ≡ p.label)
      × (body.app_version ≡ p.app_version)
unfolding report_status_deploy
report_status_deploy-known_status m p s source label key h =
    (sent m p s label key, rw (known_status-eq-some s h), refl, refl, refl)
