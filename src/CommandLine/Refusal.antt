-- ===== src/CommandLine/Refusal.antt =====
-- What the words of a command line have to do with the commands that are made of them.
use code_push.Common.{
  Option, none, some, if◌then◌else◌, ℕ, ◌≡◌, ◌⊎◌, inl, inr, refl, ap, ◌∙◌, ◌<>◌, String, Bool,
  false, none, some, List, [], ◌==◌, ◌||◌, arith,
}
use code_push.Common.Promise.{rejected}
use code_push.Parser.{Argv, Command, ◌>>=◌, arg, login, register, link}
use code_push.Parser.Resources.{
  create_access_key, create_app, create_collaborator, create_deployment, create_session,
}
use code_push.Parser.Releases.{
  create_patch, create_promote, create_release, create_release_cordova, create_release_react,
  create_rollback,
}
use code_push.Parser.Create.{Libraries, create_category, create_command}
use code_push.Executor.Sdk.{Environment}
use code_push.Executor.Execute.{gate, execute, not_logged_in}
use code_push.Executor.Connection.{deserialize_connection_info}
use code_push.CommandLine.{Terminal, ends, exits, ending_of, process}
use code_push.CommandLine.Created.{IsAny, any, none-IsAny, if-IsAny, else-IsAny, created-command}
use code_push.CommandLine.Laws.{count_usage, process-ShowsHelpOrRuns}
use code_push.Executor.Execute.Refusal.{NeedsLogin}

create_access_key-IsAny :
    (lib : String → ℕ) (argv : Argv) → IsAny NeedsLogin (create_access_key lib argv)
unfolding create_access_key
create_access_key-IsAny lib argv = search any depth 12

create_app-IsAny : (argv : Argv) → IsAny NeedsLogin (create_app argv)
unfolding create_app
create_app-IsAny argv = search any depth 12

create_collaborator-IsAny : (argv : Argv) → IsAny NeedsLogin (create_collaborator argv)
unfolding create_collaborator
create_collaborator-IsAny argv = search any depth 12

create_deployment-IsAny : (argv : Argv) → IsAny NeedsLogin (create_deployment argv)
unfolding create_deployment
create_deployment-IsAny argv = search any depth 12

create_session-IsAny : (argv : Argv) → IsAny NeedsLogin (create_session argv)
unfolding create_session
create_session-IsAny argv = search any depth 12

create_patch-IsAny :
    (lib : String → String) (argv : Argv) → IsAny NeedsLogin (create_patch lib argv)
unfolding create_patch
create_patch-IsAny lib argv = search any depth 12

create_promote-IsAny :
    (lib : String → String) (argv : Argv) → IsAny NeedsLogin (create_promote lib argv)
unfolding create_promote
create_promote-IsAny lib argv = search any depth 12

create_release-IsAny :
    (lib : String → String) (argv : Argv) → IsAny NeedsLogin (create_release lib argv)
unfolding create_release
create_release-IsAny lib argv = search any depth 12

create_release_cordova-IsAny :
    (lib : String → String) (argv : Argv) → IsAny NeedsLogin (create_release_cordova lib argv)
unfolding create_release_cordova
create_release_cordova-IsAny lib argv = search any depth 12

create_release_react-IsAny :
    (lib : String → String) (argv : Argv) → IsAny NeedsLogin (create_release_react lib argv)
unfolding create_release_react
create_release_react-IsAny lib argv = search any depth 12

create_rollback-IsAny : (argv : Argv) → IsAny NeedsLogin (create_rollback argv)
unfolding create_rollback
create_rollback-IsAny argv = search any depth 12

ruleset created = (
  any, create_access_key-IsAny, create_app-IsAny, create_collaborator-IsAny,
  create_deployment-IsAny, create_session-IsAny, create_patch-IsAny, create_promote-IsAny,
  create_release-IsAny, create_release_cordova-IsAny, create_release_react-IsAny,
  create_rollback-IsAny,
)

-- The categories whose commands need no login.
abbrev pub is_public : String → Bool
is_public category = category == "link" || category == "login" || category == "register"

create_category-IsAny :
    (lib : Libraries) (category : String) (argv : Argv)
    → category == "link" ≡ false
    → category == "login" ≡ false
    → category == "register" ≡ false
    → IsAny NeedsLogin (create_category lib category argv)
unfolding create_category
create_category-IsAny lib category argv h k l = search (created, else-IsAny) depth 30

-- The first word is one of them.
abbrev pub is_public_word : Option String → Bool
is_public_word none = false
is_public_word (some category) = is_public category

create_command-IsAny :
    (lib : Libraries) (was_help_shown : Bool) (argv : Argv)
    → is_public_word (arg 0 argv) ≡ false
    → IsAny NeedsLogin (create_command lib was_help_shown argv)
unfolding create_command
create_command-IsAny lib was_help_shown argv = go (arg 0 argv)
  where
    go :
        (word : Option String)
        → is_public_word word ≡ false
        → IsAny NeedsLogin (
            word >>= λ category. if was_help_shown then none else create_category lib category argv)
    go none h = none-IsAny NeedsLogin
    go (some category) h =
        if-IsAny NeedsLogin was_help_shown none _ (none-IsAny NeedsLogin)
          (create_category-IsAny lib category argv (ground arith) (ground arith) (ground arith))

not_logged_in-eq :
    (env : Environment) (command : Command)
    → NeedsLogin command
    → ((execute env none none command).effects ≡ [])
      × ((execute env none none command).result ≡ rejected not_logged_in)
unfolding execute gate deserialize_connection_info
not_logged_in-eq env (login server_url key proxy no_proxy) h = absurd h
not_logged_in-eq env (register server_url proxy no_proxy) h = absurd h
not_logged_in-eq env (link server_url) h = absurd h
not_logged_in-eq env _ h = (refl, refl)

-- Without a connection file, a command line that is empty or whose first word is not link, login or
-- register has no effect: its process shows the usage once and ends, or it shows no usage and exits
-- with the message that one must log in.
pub process-IsRefused :
    (lib : Libraries) (terminal : Terminal) (env : Environment) (failures : List Bool) (argv : Argv)
    → is_public_word (arg 0 argv) ≡ false
    → let p = process lib terminal env none failures argv in
      (p.effects ≡ [])
      × (((count_usage p.screens ≡ 1) × (p.ending ≡ ends))
          ⊎ ((count_usage p.screens ≡ 0)
              × (p.ending ≡ exits ("[Error]  " <> not_logged_in.message))))
process-IsRefused lib terminal env failures argv h =
    elim (process-ShowsHelpOrRuns lib terminal env none failures argv) [
      | inl (once, nothing, ending) ↦ (nothing, inl (once, ending))
      | inr (command, created, none_shown, effects, ending) ↦
          let needs = create_command-IsAny lib false argv h in
          let refused =
            not_logged_in-eq env command (created-command NeedsLogin _ command needs created) in
          (effects ∙ refused.0, inr (none_shown, ending ∙ ap ending_of refused.1))
    ]
