-- ===== src/Parser/Usage/Registry/Reads.antt =====
-- A command is made of nothing but what its usage declares.
use code_push.Common.{ℕ, zero, suc, ◌≡◌, refl, String, Bool, false, Option, List, [], ◌∷◌, ◌++◌}
use code_push.Parser.{Argv, nth, arg}
use code_push.Parser.Usage.{Usage, OptionUsage, Kind, untyped, string_option, boolean_option}
use code_push.Parser.Usage.Registry.{Registered}
use code_push.Parser.Resources.{
  create_access_key, create_app, create_collaborator, create_deployment,
}
use code_push.Parser.Releases.{
  create_patch, create_promote, create_release, create_release_cordova, create_release_react,
  create_rollback,
}
use code_push.Parser.Create.{Libraries, create_category, create_command}

-- The first arguments are the same.
abbrev pub SameArguments : ℕ → List String → List String → Type 0
SameArguments zero rest rest' = Unit
SameArguments (suc n) rest rest' = (nth n rest ≡ nth n rest') × SameArguments n rest rest'

abbrev SameValue : Kind → String → Argv → Argv → Type 0
SameValue untyped name argv argv' = argv.text_option name ≡ argv'.text_option name
SameValue string_option name argv argv' = argv.text_option name ≡ argv'.text_option name
SameValue boolean_option name argv argv' = argv.flag name ≡ argv'.flag name

-- The options have the same values.
abbrev pub SameOptions : List OptionUsage → Argv → Argv → Type 0
SameOptions [] argv argv' = Unit
SameOptions (o ∷ options) argv argv' =
    SameValue o.kind o.name argv argv' × SameOptions options argv argv'

abbrev pub command_line : List String → (String → Option String) → (String → Option Bool) → Argv
command_line positional text_option flag = record {
  positional = positional;
  text_option = text_option;
  flag = flag;
}

-- Two command lines with the same words give the same command, where they have the same arguments up
-- to the number that the usage of these words allows, and the same values for the options that it
-- declares.
pub create_command-eq :
    (words : List String) (usage : Usage) (lib : Libraries) (rest rest' : List String)
    (text_option text_option' : String → Option String) (flag flag' : String → Option Bool)
    → Registered words usage
    → SameArguments usage.max rest rest'
    → SameOptions usage.options
        (command_line (words ++ rest) text_option flag)
        (command_line (words ++ rest') text_option' flag')
    → create_command lib false (command_line (words ++ rest) text_option flag)
      ≡ create_command lib false (command_line (words ++ rest') text_option' flag')
unfolding create_command create_category arg create_access_key create_app create_collaborator
    create_deployment create_patch create_promote create_release create_release_cordova
    create_release_react create_rollback
create_command-eq words usage lib rest rest' t t' f f' Registered.access_key_add a o = rw (a.0) refl
create_command-eq words usage lib rest rest' t t' f f' Registered.access_key_remove a o =
    rw (a.0) refl
create_command-eq words usage lib rest rest' t t' f f' Registered.access_key_rm a o = rw (a.0) refl
create_command-eq words usage lib rest rest' t t' f f' Registered.access_key_list a o =
    rw (o.0) refl
create_command-eq words usage lib rest rest' t t' f f' Registered.access_key_ls a o = rw (o.0) refl
create_command-eq words usage lib rest rest' t t' f f' Registered.app_add a o =
    rw (a.0, a.1.0, a.1.1.0) refl
create_command-eq words usage lib rest rest' t t' f f' Registered.app_remove a o = rw (a.0) refl
create_command-eq words usage lib rest rest' t t' f f' Registered.app_rm a o = rw (a.0) refl
create_command-eq words usage lib rest rest' t t' f f' Registered.app_rename a o =
    rw (a.0, a.1.0) refl
create_command-eq words usage lib rest rest' t t' f f' Registered.app_list a o = rw (o.0) refl
create_command-eq words usage lib rest rest' t t' f f' Registered.app_ls a o = rw (o.0) refl
create_command-eq words usage lib rest rest' t t' f f' Registered.collaborator_add a o =
    rw (a.0, a.1.0) refl
create_command-eq words usage lib rest rest' t t' f f' Registered.collaborator_remove a o =
    rw (a.0, a.1.0) refl
create_command-eq words usage lib rest rest' t t' f f' Registered.collaborator_rm a o =
    rw (a.0, a.1.0) refl
create_command-eq words usage lib rest rest' t t' f f' Registered.collaborator_list a o =
    rw (a.0, o.0) refl
create_command-eq words usage lib rest rest' t t' f f' Registered.collaborator_ls a o =
    rw (a.0, o.0) refl
create_command-eq words usage lib rest rest' t t' f f' Registered.debug a o = rw (a.0) refl
create_command-eq words usage lib rest rest' t t' f f' Registered.deployment_add a o =
    rw (a.0, a.1.0, o.0) refl
create_command-eq words usage lib rest rest' t t' f f' Registered.deployment_clear a o =
    rw (a.0, a.1.0) refl
create_command-eq words usage lib rest rest' t t' f f' Registered.deployment_remove a o =
    rw (a.0, a.1.0) refl
create_command-eq words usage lib rest rest' t t' f f' Registered.deployment_rm a o =
    rw (a.0, a.1.0) refl
create_command-eq words usage lib rest rest' t t' f f' Registered.deployment_rename a o =
    rw (a.0, a.1.0, a.1.1.0) refl
create_command-eq words usage lib rest rest' t t' f f' Registered.deployment_list a o =
    rw (a.0, o.0, o.1.0) refl
create_command-eq words usage lib rest rest' t t' f f' Registered.deployment_ls a o =
    rw (a.0, o.0, o.1.0) refl
create_command-eq words usage lib rest rest' t t' f f' Registered.deployment_history a o =
    rw (a.0, a.1.0, o.0, o.1.0) refl
create_command-eq words usage lib rest rest' t t' f f' Registered.deployment_h a o =
    rw (a.0, a.1.0, o.0, o.1.0) refl
create_command-eq words usage lib rest rest' t t' f f' Registered.link a o = rw (a.0) refl
create_command-eq words usage lib rest rest' t t' f f' Registered.login a o =
    rw (a.0, o.0, o.1.0, o.1.1.0) refl
create_command-eq words usage lib rest rest' t t' f f' Registered.logout a o = refl
create_command-eq words usage lib rest rest' t t' f f' Registered.patch a o =
    rw (a.0, a.1.0, o.0, o.1.0, o.1.1.0, o.1.1.1.0, o.1.1.1.1.0, o.1.1.1.1.1.0) refl
create_command-eq words usage lib rest rest' t t' f f' Registered.promote a o =
    rw
      (
        a.0, a.1.0, a.1.1.0, o.0, o.1.0, o.1.1.0, o.1.1.1.0, o.1.1.1.1.0, o.1.1.1.1.1.0,
        o.1.1.1.1.1.1.0,
      )
      refl
create_command-eq words usage lib rest rest' t t' f f' Registered.register a o =
    rw (a.0, o.0, o.1.0) refl
create_command-eq words usage lib rest rest' t t' f f' Registered.release a o =
    rw (a.0, a.1.0, a.1.1.0, o.0, o.1.0, o.1.1.0, o.1.1.1.0, o.1.1.1.1.0, o.1.1.1.1.1.0) refl
create_command-eq words usage lib rest rest' t t' f f' Registered.release_cordova a o =
    rw
      (
        a.0, a.1.0, o.0, o.1.0, o.1.1.0, o.1.1.1.0, o.1.1.1.1.0, o.1.1.1.1.1.0, o.1.1.1.1.1.1.0,
        o.1.1.1.1.1.1.1.0, o.1.1.1.1.1.1.1.1.0,
      )
      refl
create_command-eq words usage lib rest rest' t t' f f' Registered.release_react a o =
    rw
      (
        a.0, a.1.0, o.0, o.1.0, o.1.1.0, o.1.1.1.0, o.1.1.1.1.0, o.1.1.1.1.1.0, o.1.1.1.1.1.1.0,
        o.1.1.1.1.1.1.1.0, o.1.1.1.1.1.1.1.1.0, o.1.1.1.1.1.1.1.1.1.0, o.1.1.1.1.1.1.1.1.1.1.0,
        o.1.1.1.1.1.1.1.1.1.1.1.0, o.1.1.1.1.1.1.1.1.1.1.1.1.0, o.1.1.1.1.1.1.1.1.1.1.1.1.1.0,
        o.1.1.1.1.1.1.1.1.1.1.1.1.1.1.0,
      )
      refl
create_command-eq words usage lib rest rest' t t' f f' Registered.rollback a o =
    rw (a.0, a.1.0, o.0) refl
create_command-eq words usage lib rest rest' t t' f f' Registered.whoami a o = refl
