-- ===== src/Executor/React/Cleanup.antt =====
-- What is left of the output folder of `releaseReact`.
use code_push.Common.{◌≡◌, refl, List, [], ◌∷◌, ◌++◌, String}
use code_push.Common.Promise.{Done, Failure, Promise, resolved, rejected, pending}
use code_push.Management.{AccountManager}
use code_push.Executor.{Effect, deletes, Run, throwing, doing, handled, ◌>>◌}
use code_push.Executor.Sdk.{Environment}
use code_push.Executor.React.{ReactCommand, output_folder, release_react}

-- The run ends with the deletion of the folder.
abbrev pub EndsByDeleting : String → Run Done → Type 0
EndsByDeleting folder run = (l : List Effect) × (run.effects ≡ l ++ deletes folder ∷ [])

handled-EndsByDeleting :
    (folder : String) (effects : List Effect) (p : Promise Done) (e : Failure)
    → (handled effects p (λ f. doing (deletes folder) >> throwing f)).result ≡ rejected e
    → EndsByDeleting folder (handled effects p (λ f. doing (deletes folder) >> throwing f))
handled-EndsByDeleting folder effects (resolved u) e h = cc
handled-EndsByDeleting folder effects (rejected f) e h = (effects, refl)
handled-EndsByDeleting folder effects pending e h = cc

-- Where the release fails, its last effect is the deletion of the output folder, also where it is a
-- folder that was given.
pub release_react-rejected :
    (env : Environment) (sdk : AccountManager) (c : ReactCommand) (e : Failure)
    → (release_react env sdk c).result ≡ rejected e
    → EndsByDeleting (output_folder env c) (release_react env sdk c)
unfolding release_react
release_react-rejected env sdk c e h = handled-EndsByDeleting (output_folder env c) _ _ e h
