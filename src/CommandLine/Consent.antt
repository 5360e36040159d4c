-- ===== src/CommandLine/Consent.antt =====
-- The words that take something away.
use code_push.Common.{
  ◌≡◌, ◌≢◌, ◌∙◌, String, Bool, true, false, Option, List, [], ◌∷◌, ◌++◌, inl, inr,
}
use code_push.Common.Promise.{resolved}
use code_push.Parser.{arg}
use code_push.Parser.Resources.{
  create_access_key, create_app, create_collaborator, create_deployment,
}
use code_push.Parser.Releases.{create_rollback}
use code_push.Parser.Create.{Libraries, create_category, create_command}
use code_push.Parser.Usage.Registry.Reads.{command_line}
use code_push.Executor.{Stored}
use code_push.Executor.Sdk.{Environment}
use code_push.Executor.Prompt.{confirm}
use code_push.Executor.Execute.Consent.{IsDestructive, execute-SendsNothing}
use code_push.CommandLine.{Terminal, process}
use code_push.CommandLine.Laws.{process-ShowsHelpOrRuns}
use code_push.CommandLine.Created.{IsAny, any, created-command}

-- The words behind which something is taken away.
pub data TakesAway : List String → Type 0 where
  access_key_remove : TakesAway ("access-key" ∷ "remove" ∷ [])
  access_key_rm : TakesAway ("access-key" ∷ "rm" ∷ [])
  app_remove : TakesAway ("app" ∷ "remove" ∷ [])
  app_rm : TakesAway ("app" ∷ "rm" ∷ [])
  collaborator_remove : TakesAway ("collaborator" ∷ "remove" ∷ [])
  collaborator_rm : TakesAway ("collaborator" ∷ "rm" ∷ [])
  deployment_clear : TakesAway ("deployment" ∷ "clear" ∷ [])
  deployment_remove : TakesAway ("deployment" ∷ "remove" ∷ [])
  deployment_rm : TakesAway ("deployment" ∷ "rm" ∷ [])
  rollback : TakesAway ("rollback" ∷ [])

create_command-IsDestructive :
    (lib : Libraries) (words rest : List String) (text_option : String → Option String)
    (flag : String → Option Bool)
    → TakesAway words
    → IsAny IsDestructive (create_command lib false (command_line (words ++ rest) text_option flag))
unfolding create_command create_category arg create_access_key create_app create_collaborator
    create_deployment create_rollback
create_command-IsDestructive lib words rest text_option flag rollback = search any
create_command-IsDestructive lib words rest text_option flag _ = search any

-- Behind these words nothing is done, whatever the arguments and options are, unless the prompt is
-- answered with y or Y.
pub process-SendsNothing :
    (lib : Libraries) (terminal : Terminal) (env : Environment) (file : Option Stored)
    (failures : List Bool) (words rest : List String) (text_option : String → Option String)
    (flag : String → Option Bool)
    → TakesAway words
    → confirm env.answer ≢ resolved true
    → (process lib terminal env file failures
        (command_line (words ++ rest) text_option flag)).effects
      ≡ []
process-SendsNothing lib terminal env file failures words rest text_option flag h refused =
    elim (process-ShowsHelpOrRuns lib terminal env file failures
      (command_line (words ++ rest) text_option flag)) [
        | inl (once, nothing, ending) ↦ nothing
        | inr (command, created, none_shown, effects, ending) ↦
            let destructive =
              created-command IsDestructive _ command
                (create_command-IsDestructive lib words rest text_option flag h) created in
            effects ∙ execute-SendsNothing env file _ command destructive refused
      ]
