-- ===== src/Executor/Tests/Tables.antt =====
-- Tables at concrete data.
use mathlib.Core.List.{Perm}
use code_push.Common.{
  ◌≡◌, ◌<◌, ◌≤◌, refl, String, ◌<>◌, true, false, none, some, List, [], ◌∷◌, ◌++◌, map, arith,
}
use code_push.Common.Decimal.{to_decimal}
use code_push.Common.Integer.{pos, negsuc}
use code_push.Common.Dict
use code_push.Common.ParseInt.{parse_int}
use code_push.Common.Precision.{to_precision}
use code_push.Common.Text.{drop}
use code_push.Common.Lines.{split_lines, IsLine, IsLine-append}
use code_push.Management.Sessions.{AccessKey}
use code_push.Executor.Tables.{Display, table}
use code_push.Executor.Tables.Texts.{UpdateMetrics, Package, apply_chalk_skipping_line_breaks}
use code_push.Common.Double.{nearest}
use code_push.Executor.Tables.Metrics.{
  DeploymentMetrics, percent_string, get_package_metrics_string, with_metrics, get_total_active,
}
use code_push.Executor.Tables.Lists.{print_access_keys}
use code_push.Executor.Tables.History.{last_label, release_source}
use code_push.Executor.Tables.Shown.{shown_deployments, shown_history}
use code_push.Executor.Tables.Laws.{
  plain_row, dimmed_row, Every, IsRectangular, tables-AreRectangular, print_access_keys_lem,
  split_lines-apply_chalk_skipping_line_breaks,
}
use code_push.Executor.Tables.Percent.{with_metrics-active}

abbrev display : Display
display = record {
  now = 100;
  difference_in_days = λ a b. pos 2;
  from_now = λ date. "2 days ago";
  year = λ date. 2017;
  format = λ pattern date. pattern;
  chalk = λ style s. s;
  wordwrap = λ n s. s;
  to_locale_string = to_decimal;
}

abbrev counts : UpdateMetrics
counts = record { active = 199; downloaded = 200; failed = 1; installed = 190 }

abbrev beta : Package
beta = record {
  app_version = some "1.0";
  description = some "Fix";
  is_disabled = true;
  is_mandatory = false;
  label = some "v3";
  original_label = some "v1";
  original_deployment = some "Staging";
  release_method = some "Rollback";
  released_by = some "a@b.c";
  rollout = some 50;
  upload_time = 7;
  metrics = none;
}

abbrev metrics : DeploymentMetrics
metrics = ("v3", counts) ∷ ("1.0", record counts { active = 1 }) ∷ []

source_test : release_source beta ≡ "Rolled back v2 to v1"
unfolding release_source last_label parse_int drop to_decimal
source_test = refl

metrics_test :
    get_package_metrics_string display (some (with_metrics metrics beta))
    ≡ "Active: 1.0e+2% (199 of 200)\nTotal: 190 (9 pending)\nRollbacks: 1\nRollout: 50%"
unfolding get_package_metrics_string percent_string nearest to_precision with_metrics
    get_total_active Dict.get to_decimal
metrics_test = refl

precision_test :
    (to_precision 1 3 ≡ "0.33")
    × (to_precision 1 30 ≡ "0.033")
    × (to_precision 7 2 ≡ "3.5")
    × (to_precision 99 10 ≡ "9.9")
    × (to_precision 9999 1000 ≡ "10")
    × (to_precision 1234 1 ≡ "1.2e+3")
    × (to_precision 1 10000000 ≡ "1.0e-7")
    × (to_precision 1 1000000 ≡ "0.0000010")
unfolding to_precision to_decimal
precision_test = (refl, refl, refl, refl, refl, refl, refl, refl)

parse_int_test :
    (parse_int "12x" ≡ some (pos 12))
    × (parse_int " -3" ≡ some (negsuc 2))
    × (parse_int "0x1F" ≡ some (pos 31))
    × (parse_int "v1" ≡ none)
unfolding parse_int
parse_int_test = (refl, refl, refl, refl)

tables-AreRectangular_example :
    IsRectangular (
      shown_deployments display
        (some "table")
        true
        true
        (λ name. metrics)
        (record { key = some "k"; name = "Production"; package_object = some beta } ∷ []))
    × IsRectangular (shown_history display (some "table") true "a@b.c" metrics (beta ∷ []))
tables-AreRectangular_example =
    tables-AreRectangular display (some "table") true true "a@b.c" (λ name. metrics)
      (record { key = some "k"; name = "Production"; package_object = some beta } ∷ []) metrics
      (beta ∷ [])

abbrev keys : List AccessKey
keys =
    record { created_time = 5; expires = 60; name = "Old" }
    ∷ record { created_time = 0; expires = 600; name = "New" }
    ∷ []

print_access_keys_lem_example :
    (current : List AccessKey) × (expired : List AccessKey) × (print_access_keys display
        (some "table")
        keys
      ≡ table
          ("Name" ∷ "Created" ∷ [])
          (map (plain_row display) current ++ map (dimmed_row display) expired))
    × Perm keys (current ++ expired)
    × Every (λ key. 100 < key.expires) current
    × Every (λ key. key.expires ≤ 100) expired
print_access_keys_lem_example = print_access_keys_lem display keys

percent_test :
    (percent_string 23 40 ≡ "57%")
    × (percent_string 199 200 ≡ "1.0e+2%")
    × (percent_string 1 3 ≡ "33%")
    × (percent_string 7 7 ≡ "100%")
    × (percent_string 0 7 ≡ "0%")
    × (percent_string 1 1000000000 ≡ "1.0e-7%")
unfolding percent_string to_precision nearest to_decimal
percent_test = (refl, refl, refl, refl, refl, refl)

shown_metrics :
    (with_metrics metrics beta).metrics ≡ some (record { counts = counts; total_active = 200 })
unfolding with_metrics get_total_active Dict.get
shown_metrics = refl

active_test : 199 ≤ 200
active_test =
    with_metrics-active metrics beta (record { counts = counts; total_active = 200 }) refl
      shown_metrics

abbrev mark : String → String
mark s = "*" <> s

mark-IsLine : (line : String) → IsLine line → IsLine (mark line)
mark-IsLine line h = IsLine-append "*" line (ground arith, tt) h

dimmed_lines_test :
    split_lines "" (apply_chalk_skipping_line_breaks "v1\nYes" mark)
    ≡ map mark (split_lines "" "v1\nYes")
dimmed_lines_test = split_lines-apply_chalk_skipping_line_breaks "v1\nYes" mark mark-IsLine
