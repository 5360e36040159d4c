-- ===== src/Parser/Usage/Resources.antt =====
-- The commands on access keys, apps, collaborators and sessions.
use code_push.Common.{String, ◌<>◌, true, false, none, [], ◌∷◌}
use code_push.Parser.Usage.{
  Usage, option, null, text, string_option, no_check, command_is_valid, usage_prefix,
}

abbrev pub access_key_add : String → Usage
access_key_add command_name = record {
  usage = usage_prefix <> " access-key " <> command_name <> " <accessKeyName>";
  count = 1;
  max = 1;
  examples =
      (
        ("access-key " <> command_name <> " \"VSTS Integration\""),
        "Creates a new access key with the name \"VSTS Integration\"",
      )
      ∷ [];
  options = [];
  check = no_check;
  sets_valid_command = true;
  sets_valid_category = false;
}

abbrev pub access_key_patch : String → Usage
access_key_patch command_name = record {
  usage = usage_prefix <> " access-key " <> command_name <> " <accessKeyName>";
  count = 1;
  max = 1;
  examples =
      (
        ("access-key " <> command_name
            <> " \"Key for build server\" --name \"Key for CI machine\""),
        "Renames the access key named \"Key for build server\" to \"Key for CI machine\"",
      )
      ∷ (
        ("access-key " <> command_name <> " \"Key for build server\" --ttl 7d"),
        "Updates the access key named \"Key for build server\" to expire in 7 days",
      )
      ∷ [];
  options =
      option "name" none null string_option "Display name for the access key"
      ∷ option "ttl" none null string_option (
          "Duration string which specifies the amount of time that the access key should "
          <> "remain valid for (e.g 5m, 60d, 1y)")
      ∷ [];
  check = no_check;
  sets_valid_command = true;
  sets_valid_category = false;
}

abbrev pub access_key_list : String → Usage
access_key_list command_name = record {
  usage = usage_prefix <> " access-key " <> command_name <> " [options]";
  count = 0;
  max = 0;
  examples =
      (("access-key " <> command_name), "Lists your access keys in tabular format")
      ∷ (
        ("access-key " <> command_name <> " --format json"),
        "Lists your access keys in JSON format",
      )
      ∷ [];
  options =
      option "format" none (text "table") string_option
        "Output format to display your access keys with (\"json\" or \"table\")"
      ∷ [];
  check = no_check;
  sets_valid_command = true;
  sets_valid_category = false;
}

abbrev pub access_key_remove : String → Usage
access_key_remove command_name = record {
  usage = usage_prefix <> " access-key " <> command_name <> " <accessKeyName>";
  count = 1;
  max = 1;
  examples =
      (
        ("access-key " <> command_name <> " \"VSTS Integration\""),
        "Removes the \"VSTS Integration\" access key",
      )
      ∷ [];
  options = [];
  check = no_check;
  sets_valid_command = true;
  sets_valid_category = false;
}

abbrev pub app_list : String → Usage
app_list command_name = record {
  usage = usage_prefix <> " app " <> command_name <> " [options]";
  count = 0;
  max = 0;
  examples =
      (("app " <> command_name), "List your apps in tabular format")
      ∷ (("app " <> command_name <> " --format json"), "List your apps in JSON format")
      ∷ [];
  options =
      option "format" none (text "table") string_option
        "Output format to display your apps with (\"json\" or \"table\")"
      ∷ [];
  check = no_check;
  sets_valid_command = true;
  sets_valid_category = false;
}

abbrev pub app_remove : String → Usage
app_remove command_name = record {
  usage = usage_prefix <> " app " <> command_name <> " <appName>";
  count = 1;
  max = 1;
  examples = (("app " <> command_name <> " MyApp"), "Removes app \"MyApp\"") ∷ [];
  options = [];
  check = no_check;
  sets_valid_command = true;
  sets_valid_category = false;
}

abbrev pub list_collaborators : String → Usage
list_collaborators command_name = record {
  usage = usage_prefix <> " collaborator " <> command_name <> " <appName> [options]";
  count = 1;
  max = 1;
  examples =
      (
        ("collaborator " <> command_name <> " MyApp"),
        "Lists the collaborators for app \"MyApp\" in tabular format",
      )
      ∷ (
        ("collaborator " <> command_name <> " MyApp --format json"),
        "Lists the collaborators for app \"MyApp\" in JSON format",
      )
      ∷ [];
  options =
      option "format" none (text "table") string_option
        "Output format to display collaborators with (\"json\" or \"table\")"
      ∷ [];
  check = no_check;
  sets_valid_command = true;
  sets_valid_category = false;
}

abbrev pub remove_collaborator : String → Usage
remove_collaborator command_name = record {
  usage = usage_prefix <> " collaborator " <> command_name <> " <appName> <email>";
  count = 2;
  max = 2;
  examples =
      (
        ("collaborator " <> command_name <> " MyApp foo@bar.com"),
        "Removes foo@bar.com as a collaborator from app \"MyApp\"",
      )
      ∷ [];
  options = [];
  check = no_check;
  sets_valid_command = true;
  sets_valid_category = false;
}

abbrev pub session_list : String → Usage
session_list command_name = record {
  usage = usage_prefix <> " session " <> command_name <> " [options]";
  count = 0;
  max = 0;
  examples =
      (("session " <> command_name), "Lists your sessions in tabular format")
      ∷ (
        ("session " <> command_name <> " --format json"),
        "Lists your login sessions in JSON format",
      )
      ∷ [];
  options =
      option "format" none (text "table") string_option
        "Output format to display your login sessions with (\"json\" or \"table\")"
      ∷ [];
  check = no_check;
  sets_valid_command = true;
  sets_valid_category = false;
}

abbrev pub session_remove : String → Usage
session_remove command_name = record {
  usage = usage_prefix <> " session " <> command_name <> " <machineName>";
  count = 1;
  max = 1;
  examples =
      (
        ("session " <> command_name <> " \"John's PC\""),
        "Removes the existing login session from \"John's PC\"",
      )
      ∷ [];
  options = [];
  check = no_check;
  sets_valid_command = true;
  sets_valid_category = false;
}

abbrev pub access_key_category : Usage
access_key_category = record {
  usage = usage_prefix <> " access-key <command>";
  count = 2;
  max = 2;
  examples = [];
  options = [];
  check = command_is_valid;
  sets_valid_command = false;
  sets_valid_category = true;
}

abbrev pub app_category : Usage
app_category = record {
  usage = usage_prefix <> " app <command>";
  count = 2;
  max = 2;
  examples = [];
  options = [];
  check = command_is_valid;
  sets_valid_command = false;
  sets_valid_category = true;
}

abbrev pub app_add : Usage
app_add = record {
  usage = usage_prefix <> " app add <appName> <os> <platform>";
  count = 3;
  max = 3;
  examples =
      (
        "app add MyApp ios react-native",
        "Adds app \"MyApp\", indicating that it's an iOS React Native app",
      )
      ∷ (
        "app add MyApp windows react-native",
        "Adds app \"MyApp\", indicating that it's a Windows React Native app",
      )
      ∷ (
        "app add MyApp android cordova",
        "Adds app \"MyApp\", indicating that it's an Android Cordova app",
      )
      ∷ [];
  options = [];
  check = no_check;
  sets_valid_command = true;
  sets_valid_category = false;
}

abbrev pub app_rename : Usage
app_rename = record {
  usage = usage_prefix <> " app rename <currentAppName> <newAppName>";
  count = 2;
  max = 2;
  examples = ("app rename CurrentName NewName", "Renames app \"CurrentName\" to \"NewName\"") ∷ [];
  options = [];
  check = no_check;
  sets_valid_command = true;
  sets_valid_category = false;
}

abbrev pub collaborator_category : Usage
collaborator_category = record {
  usage = usage_prefix <> " collaborator <command>";
  count = 2;
  max = 2;
  examples = [];
  options = [];
  check = command_is_valid;
  sets_valid_command = false;
  sets_valid_category = true;
}

abbrev pub collaborator_add : Usage
collaborator_add = record {
  usage = usage_prefix <> " collaborator add <appName> <email>";
  count = 2;
  max = 2;
  examples =
      ("collaborator add MyApp foo@bar.com", "Adds foo@bar.com as a collaborator to app \"MyApp\"")
      ∷ [];
  options = [];
  check = no_check;
  sets_valid_command = true;
  sets_valid_category = false;
}
