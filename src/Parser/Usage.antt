-- ===== src/Parser/Usage.antt =====
-- The set-up of yargs: what each command demands, and which options it has. `demand` counts the
-- arguments that are no options, behind the words of the command.
pub mod Resources
pub mod Deployments
pub mod Account
pub mod Releases
pub mod Bundles
pub mod Registry
use code_push.Common.{ℕ, String, ◌<>◌, Bool, true, false, Option, none, some, List, [], ◌∷◌}

-- `default`
pub data Default : Type 0 where
  missing null : Default
  boolean : Bool → Default
  text : String → Default

-- `type`
pub data Kind : Type 0 where
  untyped string_option boolean_option : Kind

-- The arguments of `option`; `demand` is false in all of them.
pub record OptionUsage : Type 0 where
  pub name : String
  pub alias : Option String
  pub default : Default
  pub kind : Kind
  pub description : String

-- The function that is handed to `check`.
pub data Check : Type 0 where
  no_check command_is_valid rollout_is_valid release_is_valid : Check

-- What a handler does with yargs before `addCommonConfiguration`, which makes the command strict: no
-- other options are accepted. The flags are `isValidCommand` and `isValidCommandCategory`, where it
-- sets them.
pub record Usage : Type 0 where
  pub usage : String
  pub count : ℕ
  pub max : ℕ
  pub examples : List (String × String)
  pub options : List OptionUsage
  pub check : Check
  pub sets_valid_command : Bool
  pub sets_valid_category : Bool

abbrev pub usage_prefix : String
usage_prefix = "Usage: code-push"

-- `option(name, { ... })`
abbrev pub option : String → Option String → Default → Kind → String → OptionUsage
option name alias default kind description = record {
  name = name;
  alias = alias;
  default = default;
  kind = kind;
  description = description;
}
