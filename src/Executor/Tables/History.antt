-- ===== src/Executor/Tables/History.antt =====
-- The table of a deployment's releases.
use code_push.Common.{
  zero, suc, ◌+◌, String, ◌<>◌, ◌==◌, Bool, Option, none, some, List, [], ◌∷◌, ◌++◌, map, is_truthy,
  ◌&&◌, if◌then◌else◌,
}
use code_push.Common.Text.{drop}
use code_push.Common.Decimal.{to_decimal}
use code_push.Common.Integer.{ℤ, pos, negsuc}
use code_push.Common.ParseInt.{parse_int}
use code_push.Executor.Tables.{Display, Printed, printed, magenta, dim, format_date}
use code_push.Executor.Tables.Texts.{
  Package, text_of, or_empty, yes_or_no, apply_chalk_skipping_line_breaks,
}
use code_push.Executor.Tables.Metrics.{get_package_metrics_string, disabled_string}

-- `"v" + (labelNumber - 1)`
abbrev label_before : Option ℤ → String
label_before none = "vNaN"
label_before (some (pos zero)) = "v-1"
label_before (some (pos (suc n))) = "v" <> to_decimal n
label_before (some (negsuc n)) = "v-" <> to_decimal (n + 2)

-- `lastLabel`
unfoldable pub last_label : String → String
unfolding parse_int drop
last_label label = label_before (parse_int (drop 1 label))

-- `releaseSource`; the empty text is undefined.
unfoldable pub release_source : Package → String
unfolding last_label
release_source package_object =
    if or_empty package_object.release_method == "Promote"
    then "Promoted "
      <> text_of package_object.original_label
      <> " from \""
      <> text_of package_object.original_deployment
      <> "\""
    else if or_empty package_object.release_method == "Rollback"
    then "Rolled back "
      <> last_label (or_empty package_object.label)
      <> " to "
      <> text_of package_object.original_label
    else ""

module _ (env : Display) where
  -- `releaseTime`
  unfoldable pub release_time : Package → String
  unfolding format_date release_source
  release_time package_object =
      format_date env package_object.upload_time
      <> (if is_truthy (release_source package_object)
          then "\n" <> env.chalk magenta ("(" <> release_source package_object <> ")")
          else "")

  -- `releasedBy`, for the user with an address.
  unfoldable pub released_by : String → Package → String
  released_by current_user_email package_object =
      if is_truthy current_user_email && or_empty package_object.released_by == current_user_email
      then "You"
      else or_empty package_object.released_by

  -- The cells, before those of a package that is disabled are dimmed.
  unfoldable pub cells : Bool → String → Package → List String
  unfolding release_time released_by get_package_metrics_string
  cells display_author current_user_email package_object =
      text_of package_object.label
        ∷ release_time package_object
        ∷ text_of package_object.app_version
        ∷ yes_or_no package_object.is_mandatory
        ∷ (if display_author then released_by current_user_email package_object ∷ [] else [])
      ++ ((if is_truthy (or_empty package_object.description)
            then env.wordwrap 30 (or_empty package_object.description)
            else "")
          ∷ (get_package_metrics_string env (some package_object)
              <> disabled_string env package_object.is_disabled)
          ∷ [])

  unfoldable pub row : Bool → String → Package → List String
  unfolding cells apply_chalk_skipping_line_breaks
  row display_author current_user_email package_object =
      let cells : List String = cells display_author current_user_email package_object in
      if package_object.is_disabled
      then map (λ cell. apply_chalk_skipping_line_breaks cell (env.chalk dim)) cells
      else cells

  -- `printDeploymentHistory`
  unfoldable pub print_deployment_history :
      Option String → Bool → String → List Package → Printed (List Package)
  unfolding row
  print_deployment_history format display_author current_user_email history =
      printed format history
        ("Label"
            ∷ "Release Time"
            ∷ "App Version"
            ∷ "Mandatory"
            ∷ (if display_author then "Released By" ∷ [] else [])
          ++ ("Description" ∷ "Install Metrics" ∷ []))
        (map (row display_author current_user_email) history)
