-- ===== src/Parser/Tests.antt =====
-- Runs of the command parser, and its theorems at concrete data.
use code_push.Parser.Usage.Resources.{app_rename as app_rename_usage}
use code_push.Parser.Usage.Registry.{Registered}
use code_push.Parser.Usage.Registry.Reads.{command_line, create_command-eq}
use code_push.Parser.Usage.Registry.Accepted.{IsMade, IsUnnamed, create_command-IsMade}
use code_push.Common.{
  String, Bool, Option, ◌==◌, ◌⊎◌, if◌then◌else◌, ℕ, ◌≡◌, refl, ◌≤◌, ◌<>◌, true, false, none, some,
  [], ◌∷◌, eq_iff, arith,
}
use code_push.Common.Decimal.{to_decimal}
use code_push.Parser.{Argv, app_rename, arg}
use code_push.Parser.Options.{rollout_percentage, is_valid_rollout, get_rollout_value}
use code_push.Parser.Options.Rollout.{get_rollout_value_bounds, get_rollout_value-to_decimal}
use code_push.Parser.Resources.{create_app}
use code_push.Parser.Create.{Libraries, create_category, create_command}
use code_push.Parser.Create.Laws.{IsComplete, create_command-IsComplete}

abbrev libraries : Libraries
libraries = record { parse_duration_milliseconds = λ s. 5184000000; backslash = λ s. s }

abbrev renames : Argv
renames = record {
  positional = "app" ∷ "rename" ∷ "Old" ∷ "New" ∷ [];
  text_option = λ name. none;
  flag = λ name. none;
}

rename_test : create_command libraries false renames ≡ some (app_rename "Old" "New")
unfolding create_command create_category create_app arg
rename_test = refl

get_rollout_value_bounds_example :
    ((◌≡◌ {A = String} "25%" "") × (get_rollout_value (some "25%") ≡ none))
    ⊎ ((n : ℕ) × (get_rollout_value (some "25%") ≡ some n) × (1 ≤ n) × (n ≤ 100))
unfolding is_valid_rollout rollout_percentage
get_rollout_value_bounds_example = get_rollout_value_bounds "25%" refl

get_rollout_value-to_decimal_example :
    (is_valid_rollout (some (to_decimal 40)) ≡ true)
    × (get_rollout_value (some (to_decimal 40)) ≡ some 40)
    × (is_valid_rollout (some (to_decimal 40 <> "%")) ≡ true)
    × (get_rollout_value (some (to_decimal 40 <> "%")) ≡ some 40)
get_rollout_value-to_decimal_example = get_rollout_value-to_decimal 40 (omega arith) (omega arith)

create_command-IsComplete_example : IsComplete (create_command libraries false renames)
create_command-IsComplete_example = create_command-IsComplete libraries false renames

abbrev no_text : String → Option String
no_text name = none

abbrev no_flag : String → Option Bool
no_flag name = none

-- An option that the usage does not declare.
abbrev only_label : String → Option String
only_label name = if name == "label" then some "v1" else none

create_command-eq_example :
    create_command libraries false
      (command_line ("app" ∷ "rename" ∷ "Old" ∷ "New" ∷ []) no_text no_flag)
    ≡ create_command libraries false
        (command_line ("app" ∷ "rename" ∷ "Old" ∷ "New" ∷ "More" ∷ []) only_label no_flag)
create_command-eq_example =
    create_command-eq ("app" ∷ "rename" ∷ []) app_rename_usage libraries ("Old" ∷ "New" ∷ [])
      ("Old" ∷ "New" ∷ "More" ∷ []) no_text only_label no_flag no_flag Registered.app_rename
      (refl, (refl, tt)) tt

create_command-IsMade_example :
    IsMade (
      create_command libraries false
        (command_line ("app" ∷ "rename" ∷ "Old" ∷ "New" ∷ []) no_text no_flag))
    ⊎ IsUnnamed ("app" ∷ "rename" ∷ []) ("Old" ∷ "New" ∷ []) none
create_command-IsMade_example =
    create_command-IsMade libraries no_text no_flag ("app" ∷ "rename" ∷ []) app_rename_usage
      ("Old" ∷ "New" ∷ []) Registered.app_rename (omega arith)
      (ground (arith, eq_iff "Old" ""), (ground (arith, eq_iff "New" ""), tt))
