-- ===== src/Parser/Usage/Account.antt =====
-- The commands on the account, and `debug`.
use code_push.Common.{◌<>◌, true, false, none, some, [], ◌∷◌}
use code_push.Parser.Usage.{
  Usage, option, null, boolean, string_option, boolean_option, no_check, command_is_valid,
  usage_prefix,
}

abbrev pub debug : Usage
debug = record {
  usage = usage_prefix <> " debug <platform>";
  count = 1;
  max = 1;
  examples =
      ("debug android", "View the CodePush debug logs for an Android emulator or device")
      ∷ ("debug ios", "View the CodePush debug logs for the iOS simulator")
      ∷ [];
  options = [];
  check = no_check;
  sets_valid_command = true;
  sets_valid_category = true;
}

abbrev pub link : Usage
link = record {
  usage = usage_prefix <> " link";
  count = 0;
  max = 1;
  examples = ("link", "Links an account on the Mobile Center server") ∷ [];
  options = [];
  check = command_is_valid;
  sets_valid_command = true;
  sets_valid_category = true;
}

abbrev pub login : Usage
login = record {
  usage = usage_prefix <> " login [options]";
  count = 0;
  max = 1;
  examples =
      ("login", "Logs in to the Mobile Center server")
      ∷ (
        "login --accessKey mykey",
        "Logs in on behalf of the user who owns and created the access key \"mykey\"",
      )
      ∷ ("login --proxy http://someproxy.com:455", "Logs in with the specified proxy url")
      ∷ [];
  options =
      option "accessKey" (some "key") null string_option (
        "Access key to authenticate against the Mobile Center server with, instead of "
        <> "providing your username and password credentials")
      ∷ option "proxy" none null string_option "URL of the proxy server to use"
      ∷ option "noProxy" none (boolean false) boolean_option "Bypass the system-wide proxy settings"
      ∷ [];
  check = command_is_valid;
  sets_valid_command = true;
  sets_valid_category = true;
}

abbrev pub logout : Usage
logout = record {
  usage = usage_prefix <> " logout";
  count = 0;
  max = 0;
  examples = ("logout", "Logs out and ends your current session") ∷ [];
  options = [];
  check = no_check;
  sets_valid_command = true;
  sets_valid_category = true;
}

abbrev pub register : Usage
register = record {
  usage = usage_prefix <> " register";
  count = 0;
  max = 1;
  examples =
      ("register", "Registers a new Mobile Center account")
      ∷ ("register --proxy http://someproxy.com:455", "Registers with the specified proxy url")
      ∷ [];
  options =
      option "proxy" none null string_option "URL of the proxy server to use"
      ∷ option "noProxy" none (boolean false) boolean_option "Bypass the system-wide proxy settings"
      ∷ [];
  check = command_is_valid;
  sets_valid_command = true;
  sets_valid_category = true;
}

abbrev pub whoami : Usage
whoami = record {
  usage = usage_prefix <> " whoami";
  count = 0;
  max = 0;
  examples = ("whoami", "Display the account info for the current login session") ∷ [];
  options = [];
  check = no_check;
  sets_valid_command = true;
  sets_valid_category = true;
}
