-- ===== src/Parser/Create/Laws.antt =====
-- The arguments that a command requires are there.
use code_push.Common.{
  ℕ, ◌≡◌, ◌≢◌, String, Bool, true, false, Option, none, some, List, [], ◌∷◌, ◌==◌, eq_iff, arith,
  if◌then◌else◌, Bool-cases, inl, inr,
}
use code_push.Parser.{
  Argv, Command, access_key_add, access_key_patch, access_key_remove, app_add, app_remove,
  app_rename, app_transfer, collaborator_add, collaborator_list, collaborator_remove,
  deployment_add, deployment_history, deployment_history_clear, deployment_list, deployment_remove,
  deployment_rename, session_remove, patch, promote, release, release_cordova, release_react,
  rollback, arg, ◌>>=◌, required,
}
use code_push.Parser.Resources.{
  create_access_key, create_app, create_collaborator, create_deployment, create_session,
}
use code_push.Parser.Releases.{
  create_patch, create_promote, create_release, create_release_cordova, create_release_react,
  create_rollback,
}
use code_push.Parser.Create.{Libraries, create_category, create_command}

abbrev text_of : Option String → String
text_of none = ""
text_of (some s) = s

-- The names that a command is about, and the app version of a release.
pub names : Command → List String
names (access_key_add name ttl) = name ∷ []
names (access_key_patch old_name new_name ttl) = old_name ∷ []
names (access_key_remove access_key) = access_key ∷ []
names (app_add app_name os platform) = app_name ∷ []
names (app_remove app_name) = app_name ∷ []
names (app_rename current new) = current ∷ new ∷ []
names (app_transfer app_name email) = app_name ∷ email ∷ []
names (collaborator_add app_name email) = app_name ∷ email ∷ []
names (collaborator_list app_name format) = app_name ∷ []
names (collaborator_remove app_name email) = app_name ∷ email ∷ []
names (deployment_add app_name name default) = app_name ∷ []
names (deployment_history app_name name format author) = app_name ∷ name ∷ []
names (deployment_history_clear app_name name) = app_name ∷ name ∷ []
names (deployment_list app_name format keys) = app_name ∷ []
names (deployment_remove app_name name) = app_name ∷ name ∷ []
names (deployment_rename app_name current new) = app_name ∷ current ∷ new ∷ []
names (patch app_name name info) = app_name ∷ name ∷ []
names (promote app_name source dest quiet info) = app_name ∷ source ∷ dest ∷ []
names (release app_name path name quiet info) =
    app_name ∷ path ∷ text_of info.app_store_version ∷ []
names (release_cordova app_name platform name quiet build kind info) = app_name ∷ platform ∷ []
names (release_react app_name platform name quiet info react) = app_name ∷ platform ∷ []
names (rollback app_name name target) = app_name ∷ name ∷ []
names (session_remove machine_name) = machine_name ∷ []
names _ = []

abbrev pub AllGiven : List String → Type 0
AllGiven [] = Unit
AllGiven (s ∷ l) = (s ≢ "") × AllGiven l

unfoldable pub IsComplete : Option Command → Type 0
IsComplete none = Unit
IsComplete (some c) = AllGiven (names c)

none-IsComplete : IsComplete none
unfolding IsComplete
none-IsComplete = tt

-- What a required argument gives is complete if what follows is, for an argument that is given.
required-IsComplete :
    (o : Option String) (k : String → Option Command)
    → ((s : String) → s ≢ "" → IsComplete (k s))
    → IsComplete (required o >>= k)
unfolding IsComplete
required-IsComplete none k h = tt
required-IsComplete (some s) k h = elim (Bool-cases (s == "")) [
  | inl empty ↦ rw empty tt
  | inr full ↦ rw full (h s (ground (arith, eq_iff s "")))
]

>>=-IsComplete :
    (o : Option String) (k : String → Option Command)
    → ((s : String) → IsComplete (k s))
    → IsComplete (o >>= k)
unfolding IsComplete
>>=-IsComplete none k h = tt
>>=-IsComplete (some s) k h = h s

if-IsComplete :
    (b : Bool) (c d : Option Command)
    → IsComplete c
    → IsComplete d
    → IsComplete (if b then c else d)
if-IsComplete true c d p q = p
if-IsComplete false c d p q = q

no_name : (c : Command) → names c ≡ [] → IsComplete (some c)
unfolding IsComplete
no_name c h = rw h tt

one_name :
    (o : Option String) (c : String → Command)
    → ((s : String) → names (c s) ≡ s ∷ [])
    → IsComplete (required o >>= λ s. some (c s))
unfolding IsComplete
one_name o c h = required-IsComplete o _ (λ s given. rw (h s) (given, tt))

two_names :
    (o p : Option String) (c : String → String → Command)
    → ((s t : String) → names (c s t) ≡ s ∷ t ∷ [])
    → IsComplete (required o >>= λ s. required p >>= λ t. some (c s t))
unfolding IsComplete
two_names o p c h =
    required-IsComplete o _
      (λ s given. required-IsComplete p _ (λ t too. rw (h s t) (given, (too, tt))))

three_names :
    (o p q : Option String) (c : String → String → String → Command)
    → ((s t u : String) → names (c s t u) ≡ s ∷ t ∷ u ∷ [])
    → IsComplete (required o >>= λ s. required p >>= λ t. required q >>= λ u. some (c s t u))
unfolding IsComplete
three_names o p q c h = required-IsComplete o _ (λ s given.
    required-IsComplete p _
      (λ t too. required-IsComplete q _ (λ u last. rw (h s t u) (given, (too, (last, tt))))))

one_name_if :
    (o : Option String) (b : Bool) (c : String → Command)
    → ((s : String) → names (c s) ≡ s ∷ [])
    → IsComplete (required o >>= λ s. if b then some (c s) else none)
unfolding IsComplete
one_name_if o b c h =
    required-IsComplete o _ (λ s given. if-IsComplete b (some (c s)) none (rw (h s) (given, tt)) tt)

ruleset complete =
    (none-IsComplete, if-IsComplete, no_name, one_name, two_names, three_names, one_name_if)

create_access_key-IsComplete :
    (lib : String → ℕ) (argv : Argv) → IsComplete (create_access_key lib argv)
unfolding create_access_key names
create_access_key-IsComplete lib argv = search complete

create_app-IsComplete : (argv : Argv) → IsComplete (create_app argv)
unfolding create_app names
create_app-IsComplete argv = search complete depth 12

create_collaborator-IsComplete : (argv : Argv) → IsComplete (create_collaborator argv)
unfolding create_collaborator names
create_collaborator-IsComplete argv = search complete

create_deployment-IsComplete : (argv : Argv) → IsComplete (create_deployment argv)
unfolding create_deployment names
create_deployment-IsComplete argv = search complete depth 12

create_session-IsComplete : (argv : Argv) → IsComplete (create_session argv)
unfolding create_session names
create_session-IsComplete argv = search complete

create_patch-IsComplete : (lib : String → String) (argv : Argv) → IsComplete (create_patch lib argv)
unfolding create_patch names
create_patch-IsComplete lib argv = search complete

create_promote-IsComplete :
    (lib : String → String) (argv : Argv) → IsComplete (create_promote lib argv)
unfolding create_promote names
create_promote-IsComplete lib argv = search complete

create_release-IsComplete :
    (lib : String → String) (argv : Argv) → IsComplete (create_release lib argv)
unfolding create_release names
create_release-IsComplete lib argv = search complete

create_release_cordova-IsComplete :
    (lib : String → String) (argv : Argv) → IsComplete (create_release_cordova lib argv)
unfolding create_release_cordova names
create_release_cordova-IsComplete lib argv = search complete

create_release_react-IsComplete :
    (lib : String → String) (argv : Argv) → IsComplete (create_release_react lib argv)
unfolding create_release_react names
create_release_react-IsComplete lib argv = search complete

create_rollback-IsComplete : (argv : Argv) → IsComplete (create_rollback argv)
unfolding create_rollback names
create_rollback-IsComplete argv = search complete

ruleset created = (
  complete, create_access_key-IsComplete, create_app-IsComplete, create_collaborator-IsComplete,
  create_deployment-IsComplete, create_session-IsComplete, create_patch-IsComplete,
  create_promote-IsComplete, create_release-IsComplete, create_release_cordova-IsComplete,
  create_release_react-IsComplete, create_rollback-IsComplete,
)

create_category-IsComplete :
    (lib : Libraries) (category : String) (argv : Argv)
    → IsComplete (create_category lib category argv)
unfolding create_category names
create_category-IsComplete lib category argv = search created depth 30

-- Every command that is created has its required names, and none of them is the empty text.
pub create_command-IsComplete :
    (lib : Libraries) (was_help_shown : Bool) (argv : Argv)
    → IsComplete (create_command lib was_help_shown argv)
unfolding create_command
create_command-IsComplete lib was_help_shown argv = >>=-IsComplete (arg 0 argv) _ (λ category.
    if-IsComplete was_help_shown none _ none-IsComplete
      (create_category-IsComplete lib category argv))
