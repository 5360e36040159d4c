-- ===== src/Parser/Resources.antt =====
-- `createCommand`: the commands on access keys, apps, collaborators, deployments and sessions.
use code_push.Common.{
  ℕ, String, Bool, false, ◌||◌, Option, none, some, ◌==◌, if◌then◌else◌, is_truthy,
}
use code_push.Parser.{
  Argv, Command, access_key_add, access_key_patch, access_key_list, access_key_remove, app_add,
  app_list, app_remove, app_rename, app_transfer, collaborator_add, collaborator_list,
  collaborator_remove, deployment_add, deployment_history, deployment_history_clear,
  deployment_list, deployment_remove, deployment_rename, session_list, session_remove, arg, ◌>>=◌,
  required,
}

-- `case "list": case "ls":` and the like.
abbrev is_verb : Option String → String → String → Bool
is_verb none name short = false
is_verb (some verb) name short = verb == name || verb == short

-- `case "access-key"`. The library parse-duration is the parameter `parse_duration_milliseconds`.
unfoldable pub create_access_key : (String → ℕ) → Argv → Option Command
unfolding arg
create_access_key parse_duration_milliseconds argv =
    let verb = arg 1 argv in
    let add : Option Command = required (arg 2 argv) >>= λ name.
    some (access_key_add name (parse_duration_milliseconds "60d")) in
    let patch : Option Command = required (arg 2 argv) >>= λ old_name. some (
      access_key_patch old_name (argv.text_option "name")
        (argv.text_option "ttl" >>= λ ttl. some (parse_duration_milliseconds ttl))) in
    let remove : Option Command = required (arg 2 argv) >>= λ key. some (access_key_remove key) in
    if is_verb verb "add" "add"
    then add
    else if is_verb verb "patch" "patch"
    then patch
    else if is_verb verb "list" "ls"
    then some (access_key_list (argv.text_option "format"))
    else if is_verb verb "remove" "rm"
    then remove
    else none

-- `case "app"`
unfoldable pub create_app : Argv → Option Command
unfolding arg
create_app argv =
    let verb = arg 1 argv in
    let add : Option Command =
      required (arg 2 argv) >>= λ app_name. some (app_add app_name (arg 3 argv) (arg 4 argv)) in
    let remove : Option Command =
      required (arg 2 argv) >>= λ app_name. some (app_remove app_name) in
    let rename : Option Command = required (arg 2 argv) >>= λ current.
    required (arg 3 argv) >>= λ new. some (app_rename current new) in
    let transfer : Option Command = required (arg 2 argv) >>= λ app_name.
    required (arg 3 argv) >>= λ email. some (app_transfer app_name email) in
    if is_verb verb "add" "add"
    then add
    else if is_verb verb "list" "ls"
    then some (app_list (argv.text_option "format"))
    else if is_verb verb "remove" "rm"
    then remove
    else if is_verb verb "rename" "rename"
    then rename
    else if is_verb verb "transfer" "transfer"
    then transfer
    else none

-- `case "collaborator"`
unfoldable pub create_collaborator : Argv → Option Command
unfolding arg
create_collaborator argv =
    let verb = arg 1 argv in
    let add : Option Command = required (arg 2 argv) >>= λ app_name.
    required (arg 3 argv) >>= λ email. some (collaborator_add app_name email) in
    let list : Option Command = required (arg 2 argv) >>= λ app_name.
    some (collaborator_list app_name (argv.text_option "format")) in
    let remove : Option Command = required (arg 2 argv) >>= λ app_name.
    required (arg 3 argv) >>= λ email. some (collaborator_remove app_name email) in
    if is_verb verb "add" "add"
    then add
    else if is_verb verb "list" "ls"
    then list
    else if is_verb verb "remove" "rm"
    then remove
    else none

abbrev pub is_set : Option Bool → Bool
is_set none = false
is_set (some b) = b

-- `arg3 || argv["default"]`
abbrev pub names_deployment : Option String → Option Bool → Bool
names_deployment (some name) default = is_truthy name || is_set default
names_deployment none default = is_set default

-- `case "deployment"`
unfoldable pub create_deployment : Argv → Option Command
unfolding arg
create_deployment argv =
    let verb = arg 1 argv in
    let add : Option Command = required (arg 2 argv) >>= λ app_name.
    if names_deployment (arg 3 argv) (argv.flag "default")
    then some (deployment_add app_name (arg 3 argv) (argv.flag "default"))
    else none in
    let clear : Option Command = required (arg 2 argv) >>= λ app_name.
    required (arg 3 argv) >>= λ name. some (deployment_history_clear app_name name) in
    let list : Option Command = required (arg 2 argv) >>= λ app_name.
    some (deployment_list app_name (argv.text_option "format") (argv.flag "displayKeys")) in
    let remove : Option Command = required (arg 2 argv) >>= λ app_name.
    required (arg 3 argv) >>= λ name. some (deployment_remove app_name name) in
    let rename : Option Command = required (arg 2 argv) >>= λ app_name.
    required (arg 3 argv) >>= λ current.
    required (arg 4 argv) >>= λ new. some (deployment_rename app_name current new) in
    let history : Option Command = required (arg 2 argv) >>= λ app_name.
    required (arg 3 argv) >>= λ name.
    some
      (deployment_history app_name name (argv.text_option "format") (argv.flag "displayAuthor")) in
    if is_verb verb "add" "add"
    then add
    else if is_verb verb "clear" "clear"
    then clear
    else if is_verb verb "list" "ls"
    then list
    else if is_verb verb "remove" "rm"
    then remove
    else if is_verb verb "rename" "rename"
    then rename
    else if is_verb verb "history" "h"
    then history
    else none

-- `case "session"`
unfoldable pub create_session : Argv → Option Command
unfolding arg
create_session argv =
    let verb = arg 1 argv in
    let remove : Option Command =
      required (arg 2 argv) >>= λ machine_name. some (session_remove machine_name) in
    if is_verb verb "list" "ls"
    then some (session_list (argv.text_option "format"))
    else if is_verb verb "remove" "rm"
    then remove
    else none
