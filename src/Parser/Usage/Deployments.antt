-- ===== src/Parser/Usage/Deployments.antt =====
-- The commands on deployments.
use code_push.Common.{String, ◌<>◌, true, false, none, some, [], ◌∷◌}
use code_push.Parser.Usage.{
  Usage, option, missing, boolean, text, string_option, boolean_option, no_check, command_is_valid,
  usage_prefix,
}

abbrev pub deployment_history_clear : String → Usage
deployment_history_clear command_name = record {
  usage = usage_prefix <> " deployment " <> command_name <> " <appName> <deploymentName>";
  count = 2;
  max = 2;
  examples =
      (
        ("deployment " <> command_name <> " MyApp MyDeployment"),
        ("Clears the release history associated with deployment \"MyDeployment\" from app "
            <> "\"MyApp\""),
      )
      ∷ [];
  options = [];
  check = no_check;
  sets_valid_command = true;
  sets_valid_category = false;
}

abbrev pub deployment_list : String → Usage
deployment_list command_name = record {
  usage = usage_prefix <> " deployment " <> command_name <> " <appName> [options]";
  count = 1;
  max = 1;
  examples =
      (
        ("deployment " <> command_name <> " MyApp"),
        "Lists the deployments for app \"MyApp\" in tabular format",
      )
      ∷ (
        ("deployment " <> command_name <> " MyApp --format json"),
        "Lists the deployments for app \"MyApp\" in JSON format",
      )
      ∷ [];
  options =
      option "format" none (text "table") string_option
        "Output format to display your deployments with (\"json\" or \"table\")"
      ∷ option "displayKeys" (some "k") (boolean false) boolean_option
          "Specifies whether to display the deployment keys"
      ∷ [];
  check = no_check;
  sets_valid_command = true;
  sets_valid_category = false;
}

abbrev pub deployment_remove : String → Usage
deployment_remove command_name = record {
  usage = usage_prefix <> " deployment " <> command_name <> " <appName> <deploymentName>";
  count = 2;
  max = 2;
  examples =
      (
        ("deployment " <> command_name <> " MyApp MyDeployment"),
        "Removes deployment \"MyDeployment\" from app \"MyApp\"",
      )
      ∷ [];
  options = [];
  check = no_check;
  sets_valid_command = true;
  sets_valid_category = false;
}

abbrev pub deployment_history : String → Usage
deployment_history command_name = record {
  usage = usage_prefix <> " deployment " <> command_name <> " <appName> <deploymentName> [options]";
  count = 2;
  max = 2;
  examples =
      (
        ("deployment " <> command_name <> " MyApp MyDeployment"),
        ("Displays the release history for deployment \"MyDeployment\" from app \"MyApp\" "
            <> "in tabular format"),
      )
      ∷ (
        ("deployment " <> command_name <> " MyApp MyDeployment --format json"),
        ("Displays the release history for deployment \"MyDeployment\" from app \"MyApp\" "
            <> "in JSON format"),
      )
      ∷ [];
  options =
      option "format" none (text "table") string_option
        "Output format to display the release history with (\"json\" or \"table\")"
      ∷ option "displayAuthor" (some "a") (boolean false) boolean_option
          "Specifies whether to display the release author"
      ∷ [];
  check = no_check;
  sets_valid_command = true;
  sets_valid_category = false;
}

abbrev pub deployment_category : Usage
deployment_category = record {
  usage = usage_prefix <> " deployment <command>";
  count = 2;
  max = 2;
  examples = [];
  options = [];
  check = command_is_valid;
  sets_valid_command = false;
  sets_valid_category = true;
}

abbrev pub deployment_add : Usage
deployment_add = record {
  usage = usage_prefix <> " deployment add <appName> [deploymentName]";
  count = 1;
  max = 2;
  examples =
      (
        "deployment add MyApp --default",
        "Adds default \"Staging\" and \"Production\" deployments to app \"MyApp\"",
      )
      ∷ ("deployment add MyApp MyDeployment", "Adds deployment \"MyDeployment\" to app \"MyApp\"")
      ∷ [];
  options =
      option "default" (some "d") missing boolean_option
        "Add the default \"Staging\" and \"Production\" deployments"
      ∷ [];
  check = no_check;
  sets_valid_command = true;
  sets_valid_category = false;
}

abbrev pub deployment_rename : Usage
deployment_rename = record {
  usage =
      usage_prefix <> " deployment rename <appName> <currentDeploymentName> <newDeploymentName>";
  count = 3;
  max = 3;
  examples =
      (
        "deployment rename MyApp CurrentDeploymentName NewDeploymentName",
        "Renames deployment \"CurrentDeploymentName\" to \"NewDeploymentName\"",
      )
      ∷ [];
  options = [];
  check = no_check;
  sets_valid_command = true;
  sets_valid_category = false;
}
