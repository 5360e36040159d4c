-- ===== src/CommandLine/Tests.antt =====
-- Processes at concrete data.
use code_push.Common.{◌≡◌, ◌≢◌, ◌⊎◌, refl, ◌<>◌, true, false, none, some, [], ◌∷◌}
use code_push.Parser.{Argv, arg}
use code_push.Parser.Create.{Libraries}
use code_push.Parser.Usage.Registry.Reads.{command_line}
use code_push.Executor.Execute.{not_logged_in}
use code_push.Executor.Tests.{environment, stored, reliable, not_confirmed}
use code_push.CommandLine.{Terminal, ends, exits, waits, process}
use code_push.CommandLine.Laws.{count_usage, ShowsHelpOrRuns, process-ShowsHelpOrRuns, process-ends}
use code_push.CommandLine.Refusal.{is_public_word, process-IsRefused}
use code_push.CommandLine.Consent
use code_push.CommandLine.Consent.{process-SendsNothing}

abbrev libraries : Libraries
libraries = record { parse_duration_milliseconds = λ s. 5184000000; backslash = λ s. s }

abbrev terminal : Terminal
terminal = record { cyan = λ s. s; green = λ s. s; version = "1.0.0"; has_update = true }

abbrev removal : Argv
removal = command_line ("app" ∷ "remove" ∷ "App" ∷ []) (λ name. none) (λ name. none)

process-ShowsHelpOrRuns_example :
    ShowsHelpOrRuns libraries environment
      (some stored)
      removal
      (process libraries terminal environment (some stored) (true ∷ false ∷ []) removal)
process-ShowsHelpOrRuns_example =
    process-ShowsHelpOrRuns libraries terminal environment (some stored) (true ∷ false ∷ []) removal

process-ends_example :
    (process libraries terminal environment (some stored) [] removal).ending ≢ waits
process-ends_example = process-ends libraries terminal environment (some stored) [] removal reliable

private_word : is_public_word (arg 0 removal) ≡ false
unfolding arg
private_word = refl

process-IsRefused_example :
    let p = process libraries terminal environment none [] removal in
    (p.effects ≡ [])
    × (((count_usage p.screens ≡ 1) × (p.ending ≡ ends))
        ⊎ ((count_usage p.screens ≡ 0) × (p.ending ≡ exits ("[Error]  " <> not_logged_in.message))))
process-IsRefused_example = process-IsRefused libraries terminal environment [] removal private_word

process-SendsNothing_example :
    (process libraries terminal environment
      (some stored)
      []
      (command_line ("app" ∷ "remove" ∷ "App" ∷ []) (λ name. none) (λ name. none))).effects
    ≡ []
process-SendsNothing_example =
    process-SendsNothing libraries terminal environment (some stored) [] ("app" ∷ "remove" ∷ [])
      ("App" ∷ []) (λ name. none) (λ name. none) Consent.app_remove not_confirmed
