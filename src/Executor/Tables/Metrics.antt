-- ===== src/Executor/Tables/Metrics.antt =====
-- The metrics of a package, and its text.
use code_push.Common.{
  ℕ, ◌+◌, ◌-◌, ◌*◌, String, ◌<>◌, Bool, Option, none, some, List, [], ◌∷◌, eqb, ltb, not, is_truthy,
  ◌&&◌, if◌then◌else◌,
}
use code_push.Common.Dict
use code_push.Common.Double.{Double, nearest}
use code_push.Common.Precision.{to_precision}
use code_push.Executor.Tables.{Display, green, magenta, red, format_date}
use code_push.Executor.Tables.Texts.{
  UpdateMetrics, MetricsWithTotalActive, Package, text_of, or_empty, yes_or_no,
}

-- `DeploymentMetrics`: an object, with its labels.
abbrev pub DeploymentMetrics : Type 0
DeploymentMetrics = List (String × UpdateMetrics)

-- `getTotalActiveFromDeploymentMetrics`
unfoldable pub get_total_active : DeploymentMetrics → ℕ
get_total_active [] = 0
get_total_active ((label, counts) ∷ metrics) = counts.active + get_total_active metrics

abbrev pub set_metrics : Package → ℕ → Option UpdateMetrics → Package
set_metrics package_object total none = package_object
set_metrics package_object total (some counts) = record {
  app_version = package_object.app_version;
  description = package_object.description;
  is_disabled = package_object.is_disabled;
  is_mandatory = package_object.is_mandatory;
  label = package_object.label;
  original_label = package_object.original_label;
  original_deployment = package_object.original_deployment;
  release_method = package_object.release_method;
  released_by = package_object.released_by;
  rollout = package_object.rollout;
  upload_time = package_object.upload_time;
  metrics = some (record { counts = counts; total_active = total });
}

-- What `deploymentList` and `deploymentHistory` do with a package.
unfoldable pub with_metrics : DeploymentMetrics → Package → Package
unfolding get_total_active Dict.get
with_metrics metrics package_object =
    set_metrics package_object (get_total_active metrics)
      (Dict.get (text_of package_object.label) metrics)

-- `activePercent`: a division and a multiplication of doubles.
unfoldable pub active_percent : ℕ → ℕ → Double
unfolding nearest
active_percent active total =
    let quotient = nearest active total in
    if eqb total 0
    then record { numerator = 0; denominator = 1 }
    else nearest (quotient.numerator * 100) quotient.denominator

-- The text of `activePercent`.
unfoldable pub text_of_percent : Double → String
unfolding to_precision
text_of_percent percent =
    if eqb percent.numerator (100 * percent.denominator)
    then "100%"
    else if eqb percent.numerator 0
    then "0%"
    else to_precision percent.numerator percent.denominator <> "%"

-- `percentString`
unfoldable pub percent_string : ℕ → ℕ → String
unfolding active_percent text_of_percent
percent_string active total = text_of_percent (active_percent active total)

-- `rolloutString`
abbrev pub rollout_string : Display → Option ℕ → String
rollout_string env none = ""
rollout_string env (some rollout) =
    if not (eqb rollout 0) && not (eqb rollout 100)
    then "\n" <> env.chalk green "Rollout:" <> " " <> env.to_locale_string rollout <> "%"
    else ""

-- The metrics that are there. `numPending` is positive where more was downloaded than was installed
-- or failed.
abbrev pub counts_string : Display → MetricsWithTotalActive → String
unfolding percent_string
counts_string env m =
    env.chalk green "Active: "
    <> percent_string m.counts.active m.total_active
    <> " ("
    <> env.to_locale_string m.counts.active
    <> " of "
    <> env.to_locale_string m.total_active
    <> ")\n"
    <> env.chalk green "Total: "
    <> env.to_locale_string m.counts.installed
    <> (if ltb (m.counts.installed + m.counts.failed) m.counts.downloaded
        then " ("
          <> env.to_locale_string (m.counts.downloaded - m.counts.installed - m.counts.failed)
          <> " pending)"
        else "")
    <> (if eqb m.counts.failed 0
        then ""
        else "\n"
          <> env.chalk green "Rollbacks: "
          <> env.chalk red (env.to_locale_string m.counts.failed))

abbrev pub metrics_or_none : Display → Option MetricsWithTotalActive → String
metrics_or_none env none = env.chalk magenta "No installs recorded"
metrics_or_none env (some m) = counts_string env m

-- `getPackageMetricsString`
unfoldable pub get_package_metrics_string : Display → Option Package → String
get_package_metrics_string env none = env.chalk magenta "No installs recorded"
get_package_metrics_string env (some package_object) =
    metrics_or_none env package_object.metrics <> rollout_string env package_object.rollout

-- `packageObject.isDisabled ? ... : ""`
abbrev pub disabled_string : Display → Bool → String
disabled_string env disabled =
    if disabled then "\n" <> env.chalk green "Disabled:" <> " Yes" else ""

-- `getPackageString`
unfoldable pub get_package_string : Display → Option Package → String
unfolding format_date
get_package_string env none = env.chalk magenta "No updates released"
get_package_string env (some package_object) =
    env.chalk green "Label: "
    <> text_of package_object.label
    <> "\n"
    <> env.chalk green "App Version: "
    <> text_of package_object.app_version
    <> "\n"
    <> env.chalk green "Mandatory: "
    <> yes_or_no package_object.is_mandatory
    <> "\n"
    <> env.chalk green "Release Time: "
    <> format_date env package_object.upload_time
    <> "\n"
    <> env.chalk green "Released By: "
    <> or_empty package_object.released_by
    <> (if is_truthy (or_empty package_object.description)
        then env.wordwrap 70
            ("\n" <> env.chalk green "Description: " <> or_empty package_object.description)
        else "")
    <> disabled_string env package_object.is_disabled
