-- ===== src/Parser/Usage/Releases.antt =====
-- `patch`, `promote` and `rollback`.
use code_push.Common.{◌<>◌, false, none, some, [], ◌∷◌}
use code_push.Parser.Usage.{
  Usage, option, null, boolean, text, string_option, boolean_option, no_check, rollout_is_valid,
  usage_prefix,
}

abbrev pub patch : Usage
patch = record {
  usage = usage_prefix <> " patch <appName> <deploymentName> [options]";
  count = 2;
  max = 2;
  examples =
      (
        "patch MyApp Production --des \"Updated description\" -r 50%",
        ("Updates the description of the latest release for \"MyApp\" app's \"Production\" "
            <> "deployment and updates the rollout value to 50%"),
      )
      ∷ (
        "patch MyApp Production -l v3 --des \"Updated description for v3\"",
        ("Updates the description of the release with label v3 for \"MyApp\" app's "
            <> "\"Production\" deployment"),
      )
      ∷ [];
  options =
      option "label" (some "l") null string_option (
        "Label of the release to update. Defaults to the latest release within the "
        <> "specified deployment")
      ∷ option "description" (some "des") null string_option
          "Description of the changes made to the app with this release"
      ∷ option "disabled" (some "x") null boolean_option
          "Specifies whether this release should be immediately downloadable"
      ∷ option "mandatory" (some "m") null boolean_option
          "Specifies whether this release should be considered mandatory"
      ∷ option "rollout" (some "r") null string_option (
          "Percentage of users this release should be immediately available to. This "
          <> "attribute can only be increased from the current value.")
      ∷ option "targetBinaryVersion" (some "t") null string_option (
          "Semver expression that specifies the binary app version(s) this release is "
          <> "targeting (e.g. 1.1.0, ~1.2.3).")
      ∷ [];
  check = rollout_is_valid;
  sets_valid_command = false;
  sets_valid_category = false;
}

abbrev pub promote : Usage
promote = record {
  usage =
      usage_prefix <> " promote <appName> <sourceDeploymentName> <destDeploymentName> [options]";
  count = 3;
  max = 3;
  examples =
      (
        "promote MyApp Staging Production",
        ("Promotes the latest release within the \"Staging\" deployment of \"MyApp\" to "
            <> "\"Production\""),
      )
      ∷ (
        "promote MyApp Staging Production --des \"Production rollout\" -r 25",
        ("Promotes the latest release within the \"Staging\" deployment of \"MyApp\" to "
            <> "\"Production\", with an updated description, and targeting only 25% of the users"),
      )
      ∷ [];
  options =
      option "description" (some "des") null string_option (
        "Description of the changes made to the app with this release. If omitted, the "
        <> "description from the release being promoted will be used.")
      ∷ option "label" (some "l") null string_option (
          "Label of the source release that will be taken. If omitted, the latest release "
          <> "being promoted will be used.")
      ∷ option "disabled" (some "x") null boolean_option (
          "Specifies whether this release should be immediately downloadable. If omitted, "
          <> "the disabled attribute from the release being promoted will be used.")
      ∷ option "mandatory" (some "m") null boolean_option (
          "Specifies whether this release should be considered mandatory. If omitted, the "
          <> "mandatory property from the release being promoted will be used.")
      ∷ option "noDuplicateReleaseError" none (boolean false) boolean_option (
          "When this flag is set, promoting a package that is identical to the latest "
          <> "release on the target deployment will produce a warning instead of an error")
      ∷ option "rollout" (some "r") (text "100%") string_option
          "Percentage of users this update should be immediately available to"
      ∷ option "targetBinaryVersion" (some "t") null string_option (
          "Semver expression that specifies the binary app version(s) this release is "
          <> "targeting (e.g. 1.1.0, ~1.2.3). If omitted, the target binary version property "
          <> "from the release being promoted will be used.")
      ∷ [];
  check = rollout_is_valid;
  sets_valid_command = false;
  sets_valid_category = false;
}

abbrev pub rollback : Usage
rollback = record {
  usage = usage_prefix <> " rollback <appName> <deploymentName> [options]";
  count = 2;
  max = 2;
  examples =
      (
        "rollback MyApp Production",
        "Performs a rollback on the \"Production\" deployment of \"MyApp\"",
      )
      ∷ (
        "rollback MyApp Production --targetRelease v4",
        "Performs a rollback on the \"Production\" deployment of \"MyApp\" to the v4 release",
      )
      ∷ [];
  options =
      option "targetRelease" (some "r") null string_option (
        "Label of the release to roll the specified deployment back to (e.g. v4). If "
        <> "omitted, the deployment will roll back to the previous release.")
      ∷ [];
  check = no_check;
  sets_valid_command = false;
  sets_valid_category = false;
}
