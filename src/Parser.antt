-- ===== src/Parser.antt =====
-- cli/script/command-parser.ts: the options and arguments that yargs hands over, and the commands
-- of cli/definitions/cli.ts.
pub mod Options
pub mod ServerUrl
pub mod Resources
pub mod Releases
pub mod Create
pub mod Usage
mod Tests
use code_push.Common.{
  ℕ, zero, suc, String, Bool, Option, none, some, List, [], ◌∷◌, if◌then◌else◌, is_truthy,
}

-- The parsed command line: the arguments `_`, and the options by name. An option that was not
-- given has its default, or is missing.
pub record Argv : Type 0 where
  pub positional : List String
  pub text_option : String → Option String
  pub flag : String → Option Bool

-- `IPackageInfo`, and the version range of the app.
pub record ReleaseInfo : Type 0 where
  pub app_store_version : Option String
  pub description : Option String
  pub label : Option String
  pub disabled : Option Bool
  pub mandatory : Option Bool
  pub rollout : Option ℕ

-- `IReleaseReactCommand`, without the fields that all releases have.
pub record ReactOptions : Type 0 where
  pub bundle_name : Option String
  pub development : Option Bool
  pub entry_file : Option String
  pub gradle_file : Option String
  pub plist_file : Option String
  pub plist_file_prefix : Option String
  pub sourcemap_output : Option String
  pub output_dir : Option String

pub data Command : Type 0 where
  access_key_add : (name : String) (ttl : ℕ) → Command
  access_key_patch : (old_name : String) (new_name : Option String) (ttl : Option ℕ) → Command
  access_key_list : (format : Option String) → Command
  access_key_remove : (access_key : String) → Command
  app_add : (app_name : String) (os platform : Option String) → Command
  app_list : (format : Option String) → Command
  app_remove : (app_name : String) → Command
  app_rename : (current_app_name new_app_name : String) → Command
  app_transfer : (app_name email : String) → Command
  collaborator_add : (app_name email : String) → Command
  collaborator_list : (app_name : String) (format : Option String) → Command
  collaborator_remove : (app_name email : String) → Command
  debug : (platform : Option String) → Command
  deployment_add :
      (app_name : String) (deployment_name : Option String) (default : Option Bool) → Command
  deployment_history :
      (app_name deployment_name : String) (format : Option String) (display_author : Option Bool)
      → Command
  deployment_history_clear : (app_name deployment_name : String) → Command
  deployment_list :
      (app_name : String) (format : Option String) (display_keys : Option Bool) → Command
  deployment_remove : (app_name deployment_name : String) → Command
  deployment_rename : (app_name current_deployment_name new_deployment_name : String) → Command
  link : (server_url : Option String) → Command
  login : (server_url access_key proxy : Option String) (no_proxy : Option Bool) → Command
  logout : Command
  patch : (app_name deployment_name : String) (info : ReleaseInfo) → Command
  promote :
      (app_name source_deployment_name dest_deployment_name : String)
      (no_duplicate_release_error : Option Bool) (info : ReleaseInfo)
      → Command
  register : (server_url proxy : Option String) (no_proxy : Option Bool) → Command
  release :
      (app_name package_path : String) (deployment_name : Option String)
      (no_duplicate_release_error : Option Bool) (info : ReleaseInfo)
      → Command
  release_cordova :
      (app_name platform : String) (deployment_name : Option String)
      (no_duplicate_release_error build is_release_build_type : Option Bool) (info : ReleaseInfo)
      → Command
  release_react :
      (app_name platform : String) (deployment_name : Option String)
      (no_duplicate_release_error : Option Bool) (info : ReleaseInfo) (react : ReactOptions)
      → Command
  rollback : (app_name deployment_name : String) (target_release : Option String) → Command
  session_list : (format : Option String) → Command
  session_remove : (machine_name : String) → Command
  whoami : Command

abbrev pub nth : ℕ → List String → Option String
nth n [] = none
nth zero (s ∷ l) = some s
nth (suc n) (s ∷ l) = nth n l

-- `argv._[n]`
unfoldable pub arg : ℕ → Argv → Option String
arg n argv = nth n argv.positional

infixl 5 ◌>>=◌
abbrev pub ◌>>=◌ : {A B : Type 0} → Option A → (A → Option B) → Option B
none >>= k = none
some a >>= k = k a

-- `if (arg)`: the argument is given and is not empty.
abbrev pub required : Option String → Option String
required none = none
required (some s) = if is_truthy s then some s else none
