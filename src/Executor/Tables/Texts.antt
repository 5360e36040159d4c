-- ===== src/Executor/Tables/Texts.antt =====
-- Packages, and texts of several lines.
use code_push.Common.{ℕ, String, Bool, true, false, Option, none, some, map}
use code_push.Common.Lines.{split_lines, join_lines}

-- `UpdateMetrics`
pub record UpdateMetrics : Type 0 where
  pub active : ℕ
  pub downloaded : ℕ
  pub failed : ℕ
  pub installed : ℕ

-- `UpdateMetricsWithTotalActive`
pub record MetricsWithTotalActive : Type 0 where
  pub counts : UpdateMetrics
  pub total_active : ℕ

-- A `Package`, with the metrics that are set later.
pub record Package : Type 0 where
  pub app_version : Option String
  pub description : Option String
  pub is_disabled : Bool
  pub is_mandatory : Bool
  pub label : Option String
  pub original_label : Option String
  pub original_deployment : Option String
  pub release_method : Option String
  pub released_by : Option String
  pub rollout : Option ℕ
  pub upload_time : ℕ
  pub metrics : Option MetricsWithTotalActive

-- A field that is joined to a text.
abbrev pub text_of : Option String → String
text_of none = "undefined"
text_of (some s) = s

-- `s ? s : ""`
abbrev pub or_empty : Option String → String
or_empty none = ""
or_empty (some s) = s

abbrev pub yes_or_no : Bool → String
yes_or_no true = "Yes"
yes_or_no false = "No"

-- `applyChalkSkippingLineBreaks`
unfoldable pub apply_chalk_skipping_line_breaks : String → (String → String) → String
unfolding split_lines join_lines
apply_chalk_skipping_line_breaks text chalk_method =
    join_lines (map chalk_method (split_lines "" text))
