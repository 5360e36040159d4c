-- ===== src/Parser/Usage/Registry/Accepted.antt =====
-- What the usage of a command accepts is made into a command.
use code_push.Common.{
  Bool-cases, ℕ, zero, suc, ◌+◌, ◌≤◌, ◌≡◌, ◌≢◌, refl, String, Bool, true, false, Option, none, some,
  List, [], ◌∷◌, ◌++◌, ◌⊎◌, inl, inr, arith, is_truthy, if◌then◌else◌, eq_iff,
}
use code_push.Parser.{Command, deployment_add, nth, arg, required, ◌>>=◌}
use code_push.Parser.Usage.{Usage}
use code_push.Parser.Usage.Registry.{Registered}
use code_push.Parser.Usage.Registry.Reads.{command_line}
use code_push.Parser.Resources.{
  create_access_key, create_app, create_collaborator, create_deployment, is_set, names_deployment,
}
use code_push.Parser.Releases.{
  create_patch, create_promote, create_release, create_release_cordova, create_release_react,
  create_rollback,
}
use code_push.Parser.Create.{Libraries, create_category, create_command}
use code_push.Parser.Create.Laws.{AllGiven}

abbrev pub length : List String → ℕ
length [] = 0
length (s ∷ l) = length l + 1

pub data IsMade {A : Type 0} : Option A → Type 0 where
  made : (a : A) → IsMade (some a)

bind-IsMade :
    {A B : Type 0} (o : Option A) (k : A → Option B)
    → IsMade o
    → ((a : A) → IsMade (k a))
    → IsMade (o >>= k)
bind-IsMade none k h next = elim h [ ]
bind-IsMade (some a) k h next = next a

required-IsMade : (s : String) → s ≢ "" → IsMade (required (some s))
required-IsMade s h = go (is_truthy s) refl
  where
    go : (b : Bool) → is_truthy s ≡ b → IsMade (if b then some s else none)
    go true e = made s
    go false e = absurd (h (ground (arith, eq_iff s "")))

nth-IsMade :
    (n : ℕ) (rest : List String)
    → n + 1 ≤ length rest
    → AllGiven rest
    → IsMade (required (nth n rest))
nth-IsMade n [] h given = absurd (omega arith)
nth-IsMade zero (s ∷ rest) h given = required-IsMade s given.0
nth-IsMade (suc n) (s ∷ rest) h given = nth-IsMade n rest (omega arith) given.1

-- The commands that are made of one, two or three arguments.
module _ (rest : List String) (given : AllGiven rest) where
  one-IsMade :
      1 ≤ length rest → (k : String → Command) → IsMade (required (nth 0 rest) >>= λ a. some (k a))
  one-IsMade h k = bind-IsMade _ _ (nth-IsMade 0 rest h given) (λ a. made (k a))

  two-IsMade :
      2 ≤ length rest
      → (k : String → String → Command)
      → IsMade (required (nth 0 rest) >>= λ a. required (nth 1 rest) >>= λ b. some (k a b))
  two-IsMade h k =
      bind-IsMade _ _ (nth-IsMade 0 rest (omega arith) given)
        (λ a. bind-IsMade _ _ (nth-IsMade 1 rest h given) (λ b. made (k a b)))

  three-IsMade :
      3 ≤ length rest
      → (k : String → String → String → Command)
      → IsMade (
          required (nth 0 rest) >>= λ a.
          required (nth 1 rest) >>= λ b. required (nth 2 rest) >>= λ c. some (k a b c))
  three-IsMade h k = bind-IsMade _ _ (nth-IsMade 0 rest (omega arith) given) (λ a.
      bind-IsMade _ _ (nth-IsMade 1 rest (omega arith) given)
        (λ b. bind-IsMade _ _ (nth-IsMade 2 rest h given) (λ c. made (k a b c))))

-- `deployment add` with an app alone and without "default".
abbrev pub IsUnnamed : List String → List String → Option Bool → Type 0
IsUnnamed words rest default =
    (words ≡ "deployment" ∷ "add" ∷ []) × (length rest ≡ 1) × (is_set default ≡ false)

module _ (lib : Libraries) (text_option : String → Option String)
    (flag : String → Option Bool) where
  deployment_add-IsMade :
      (app : String) (name : Option String)
      → app ≢ ""
      → names_deployment name (flag "default") ≡ true
      → IsMade (
          required (some app) >>= λ app_name.
          if names_deployment name (flag "default")
          then some (deployment_add app_name name (flag "default"))
          else none)
  deployment_add-IsMade app name h e =
      rw (e) (bind-IsMade _ _ (required-IsMade app h) (λ a. made _))

  deployment_add-cases :
      (rest : List String)
      → 1 ≤ length rest
      → AllGiven rest
      → IsMade
          (create_command lib false (command_line ("deployment" ∷ "add" ∷ rest) text_option flag))
        ⊎ IsUnnamed ("deployment" ∷ "add" ∷ []) rest (flag "default")
  unfolding create_command create_category arg create_deployment
  deployment_add-cases [] h given = absurd (omega arith)
  deployment_add-cases (app ∷ []) h given = elim (Bool-cases (is_set (flag "default"))) [
    | inl e ↦ inl (deployment_add-IsMade app none given.0 e)
    | inr e ↦ inr (refl, refl, e)
  ]
  deployment_add-cases (app ∷ name ∷ rest) h given =
      inl (deployment_add-IsMade app (some name) given.0 (ground (arith, eq_iff name "")))

  -- Where no argument behind the words is empty, and there are as many as the usage demands, a
  -- command is made, whatever the options are; only for `deployment add` with an app alone and
  -- without "default" there may be none.
  pub create_command-IsMade :
      (words : List String) (usage : Usage) (rest : List String)
      → Registered words usage
      → usage.count ≤ length rest
      → AllGiven rest
      → IsMade (create_command lib false (command_line (words ++ rest) text_option flag))
        ⊎ IsUnnamed words rest (flag "default")
  unfolding create_command create_category arg create_access_key create_app create_collaborator
      create_deployment create_patch create_promote create_release create_release_cordova
      create_release_react create_rollback
  create_command-IsMade words usage rest Registered.deployment_add h given =
      deployment_add-cases rest h given
  create_command-IsMade words usage rest Registered.access_key_add h given =
      inl (one-IsMade rest given h _)
  create_command-IsMade words usage rest Registered.access_key_remove h given =
      inl (one-IsMade rest given h _)
  create_command-IsMade words usage rest Registered.access_key_rm h given =
      inl (one-IsMade rest given h _)
  create_command-IsMade words usage rest Registered.app_add h given =
      inl (one-IsMade rest given (omega arith) _)
  create_command-IsMade words usage rest Registered.app_remove h given =
      inl (one-IsMade rest given h _)
  create_command-IsMade words usage rest Registered.app_rm h given = inl (one-IsMade rest given h _)
  create_command-IsMade words usage rest Registered.collaborator_list h given =
      inl (one-IsMade rest given h _)
  create_command-IsMade words usage rest Registered.collaborator_ls h given =
      inl (one-IsMade rest given h _)
  create_command-IsMade words usage rest Registered.deployment_list h given =
      inl (one-IsMade rest given h _)
  create_command-IsMade words usage rest Registered.deployment_ls h given =
      inl (one-IsMade rest given h _)
  create_command-IsMade words usage rest Registered.app_rename h given =
      inl (two-IsMade rest given h _)
  create_command-IsMade words usage rest Registered.collaborator_add h given =
      inl (two-IsMade rest given h _)
  create_command-IsMade words usage rest Registered.collaborator_remove h given =
      inl (two-IsMade rest given h _)
  create_command-IsMade words usage rest Registered.collaborator_rm h given =
      inl (two-IsMade rest given h _)
  create_command-IsMade words usage rest Registered.deployment_clear h given =
      inl (two-IsMade rest given h _)
  create_command-IsMade words usage rest Registered.deployment_remove h given =
      inl (two-IsMade rest given h _)
  create_command-IsMade words usage rest Registered.deployment_rm h given =
      inl (two-IsMade rest given h _)
  create_command-IsMade words usage rest Registered.deployment_history h given =
      inl (two-IsMade rest given h _)
  create_command-IsMade words usage rest Registered.deployment_h h given =
      inl (two-IsMade rest given h _)
  create_command-IsMade words usage rest Registered.patch h given = inl (two-IsMade rest given h _)
  create_command-IsMade words usage rest Registered.release_cordova h given =
      inl (two-IsMade rest given h _)
  create_command-IsMade words usage rest Registered.release_react h given =
      inl (two-IsMade rest given h _)
  create_command-IsMade words usage rest Registered.rollback h given =
      inl (two-IsMade rest given h _)
  create_command-IsMade words usage rest Registered.deployment_rename h given =
      inl (three-IsMade rest given h _)
  create_command-IsMade words usage rest Registered.promote h given =
      inl (three-IsMade rest given h _)
  create_command-IsMade words usage rest Registered.release h given =
      inl (three-IsMade rest given h _)
  create_command-IsMade words usage rest _ h given = inl (made _)
