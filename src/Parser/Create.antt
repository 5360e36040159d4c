-- ===== src/Parser/Create.antt =====
-- `createCommand`: the dispatch on the first argument.
pub mod Laws
use code_push.Common.{ℕ, String, Bool, true, false, Option, none, some, ◌==◌, if◌then◌else◌}
use code_push.Parser.{Argv, Command, debug, link, login, logout, register, whoami, arg, ◌>>=◌}
use code_push.Parser.Resources.{
  create_access_key, create_app, create_collaborator, create_deployment, create_session,
}
use code_push.Parser.Releases.{
  create_patch, create_promote, create_release, create_release_cordova, create_release_react,
  create_rollback,
}
use code_push.Parser.ServerUrl.{get_server_url}

-- The libraries parse-duration and backslash.
pub record Libraries : Type 0 where
  pub parse_duration_milliseconds : String → ℕ
  pub backslash : String → String

unfoldable pub create_category : Libraries → String → Argv → Option Command
create_category lib category argv =
    let server_url = get_server_url (arg 1 argv) in
    let proxy = argv.text_option "proxy" in
    let no_proxy = argv.flag "noProxy" in
    if category == "access-key"
    then create_access_key lib.parse_duration_milliseconds argv
    else if category == "app"
    then create_app argv
    else if category == "collaborator"
    then create_collaborator argv
    else if category == "debug"
    then some (debug (arg 1 argv))
    else if category == "deployment"
    then create_deployment argv
    else if category == "link"
    then some (link server_url)
    else if category == "login"
    then some (login server_url (argv.text_option "accessKey") proxy no_proxy)
    else if category == "logout"
    then some logout
    else if category == "patch"
    then create_patch lib.backslash argv
    else if category == "promote"
    then create_promote lib.backslash argv
    else if category == "register"
    then some (register server_url proxy no_proxy)
    else if category == "release"
    then create_release lib.backslash argv
    else if category == "release-cordova"
    then create_release_cordova lib.backslash argv
    else if category == "release-react"
    then create_release_react lib.backslash argv
    else if category == "rollback"
    then create_rollback argv
    else if category == "session"
    then create_session argv
    else if category == "whoami"
    then some whoami
    else none

-- No command is created where the help was shown, or where there is no argument.
unfoldable pub create_command : Libraries → Bool → Argv → Option Command
unfolding create_category arg
create_command lib was_help_shown argv = do
  category ← arg 0 argv
  if was_help_shown then none else create_category lib category argv
