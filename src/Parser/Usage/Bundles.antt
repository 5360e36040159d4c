-- ===== src/Parser/Usage/Bundles.antt =====
-- `release`, `release-cordova` and `release-react`.
use code_push.Common.{◌<>◌, false, none, some, [], ◌∷◌}
use code_push.Parser.Usage.{
  Usage, option, null, boolean, text, untyped, string_option, boolean_option, release_is_valid,
  usage_prefix,
}

abbrev pub release : Usage
release = record {
  usage = usage_prefix <> " release <appName> <updateContentsPath> <targetBinaryVersion> [options]";
  count = 3;
  max = 3;
  examples =
      (
        "release MyApp app.js \"*\"",
        ("Releases the \"app.js\" file to the \"MyApp\" app's \"Staging\" deployment, "
            <> "targeting any binary version using the \"*\" wildcard range syntax."),
      )
      ∷ (
        "release MyApp ./platforms/ios/www 1.0.3 -d Production",
        ("Releases the \"./platforms/ios/www\" folder and all its contents to the \"MyApp\" "
            <> "app's \"Production\" deployment, targeting only the 1.0.3 binary version"),
      )
      ∷ (
        "release MyApp ./platforms/ios/www 1.0.3 -d Production -r 20",
        ("Releases the \"./platforms/ios/www\" folder and all its contents to the \"MyApp\" "
            <> "app's \"Production\" deployment, targeting the 1.0.3 binary version and rolling "
            <> "out to about 20% of the users"),
      )
      ∷ [];
  options =
      option "deploymentName" (some "d") (text "Staging") string_option
        "Deployment to release the update to"
      ∷ option "description" (some "des") null string_option
          "Description of the changes made to the app in this release"
      ∷ option "disabled" (some "x") (boolean false) boolean_option
          "Specifies whether this release should be immediately downloadable"
      ∷ option "mandatory" (some "m") (boolean false) boolean_option
          "Specifies whether this release should be considered mandatory"
      ∷ option "noDuplicateReleaseError" none (boolean false) boolean_option (
          "When this flag is set, releasing a package that is identical to the latest "
          <> "release will produce a warning instead of an error")
      ∷ option "rollout" (some "r") (text "100%") string_option
          "Percentage of users this release should be available to"
      ∷ [];
  check = release_is_valid;
  sets_valid_command = false;
  sets_valid_category = false;
}

abbrev pub release_cordova : Usage
release_cordova = record {
  usage = usage_prefix <> " release-cordova <appName> <platform> [options]";
  count = 2;
  max = 2;
  examples =
      (
        "release-cordova MyApp ios",
        ("Releases the Cordova iOS project in the current working directory to the "
            <> "\"MyApp\" app's \"Staging\" deployment"),
      )
      ∷ (
        "release-cordova MyApp android -d Production",
        ("Releases the Cordova Android project in the current working directory to the "
            <> "\"MyApp\" app's \"Production\" deployment"),
      )
      ∷ [];
  options =
      option "build" (some "b") (boolean false) boolean_option
        "Invoke \"cordova build\" instead of \"cordova prepare\""
      ∷ option "isReleaseBuildType" (some "rb") (boolean false) boolean_option
          "If \"build\" option is true specifies whether perform a release build"
      ∷ option "deploymentName" (some "d") (text "Staging") string_option
          "Deployment to release the update to"
      ∷ option "description" (some "des") null string_option
          "Description of the changes made to the app in this release"
      ∷ option "disabled" (some "x") (boolean false) boolean_option
          "Specifies whether this release should be immediately downloadable"
      ∷ option "mandatory" (some "m") (boolean false) boolean_option
          "Specifies whether this release should be considered mandatory"
      ∷ option "noDuplicateReleaseError" none (boolean false) boolean_option (
          "When this flag is set, releasing a package that is identical to the latest "
          <> "release will produce a warning instead of an error")
      ∷ option "rollout" (some "r") (text "100%") string_option
          "Percentage of users this release should be immediately available to"
      ∷ option "targetBinaryVersion" (some "t") null string_option (
          "Semver expression that specifies the binary app version(s) this release is "
          <> "targeting (e.g. 1.1.0, ~1.2.3). If omitted, the release will target the exact "
          <> "version specified in the config.xml file.")
      ∷ [];
  check = release_is_valid;
  sets_valid_command = false;
  sets_valid_category = false;
}

abbrev pub release_react : Usage
release_react = record {
  usage = usage_prefix <> " release-react <appName> <platform> [options]";
  count = 2;
  max = 2;
  examples =
      (
        "release-react MyApp ios",
        ("Releases the React Native iOS project in the current working directory to the "
            <> "\"MyApp\" app's \"Staging\" deployment"),
      )
      ∷ (
        "release-react MyApp android -d Production",
        ("Releases the React Native Android project in the current working directory to the "
            <> "\"MyApp\" app's \"Production\" deployment"),
      )
      ∷ (
        "release-react MyApp windows --dev",
        ("Releases the development bundle of the React Native Windows project in the "
            <> "current working directory to the \"MyApp\" app's \"Staging\" deployment"),
      )
      ∷ [];
  options =
      option "bundleName" (some "b") null string_option (
        "Name of the generated JS bundle file. If unspecified, the standard bundle name "
        <> "will be used, depending on the specified platform: \"main.jsbundle\" (iOS), "
        <> "\"index.android.bundle\" (Android) or \"index.windows.bundle\" (Windows)")
      ∷ option "deploymentName" (some "d") (text "Staging") string_option
          "Deployment to release the update to"
      ∷ option "description" (some "des") null string_option
          "Description of the changes made to the app with this release"
      ∷ option "development" (some "dev") (boolean false) boolean_option
          "Specifies whether to generate a dev or release build"
      ∷ option "disabled" (some "x") (boolean false) boolean_option
          "Specifies whether this release should be immediately downloadable"
      ∷ option "entryFile" (some "e") null string_option (
          "Path to the app's entry Javascript file. If omitted, \"index.<platform>.js\" and "
          <> "then \"index.js\" will be used (if they exist)")
      ∷ option "gradleFile" (some "g") null untyped (
          "Path to the gradle file which specifies the binary version you want to target "
          <> "this release at (android only).")
      ∷ option "mandatory" (some "m") (boolean false) boolean_option
          "Specifies whether this release should be considered mandatory"
      ∷ option "noDuplicateReleaseError" none (boolean false) boolean_option (
          "When this flag is set, releasing a package that is identical to the latest "
          <> "release will produce a warning instead of an error")
      ∷ option "plistFile" (some "p") null untyped (
          "Path to the plist file which specifies the binary version you want to target this "
          <> "release at (iOS only).")
      ∷ option "plistFilePrefix" (some "pre") null untyped (
          "Prefix to append to the file name when attempting to find your app's Info.plist "
          <> "file (iOS only).")
      ∷ option "rollout" (some "r") (text "100%") string_option
          "Percentage of users this release should be immediately available to"
      ∷ option "sourcemapOutput" (some "s") null string_option (
          "Path to where the sourcemap for the resulting bundle should be written. If "
          <> "omitted, a sourcemap will not be generated.")
      ∷ option "targetBinaryVersion" (some "t") null string_option (
          "Semver expression that specifies the binary app version(s) this release is "
          <> "targeting (e.g. 1.1.0, ~1.2.3). If omitted, the release will target the exact "
          <> "version specified in the \"Info.plist\" (iOS), \"build.gradle\" (Android) or "
          <> "\"Package.appxmanifest\" (Windows) files.")
      ∷ option "outputDir" (some "o") null string_option (
          "Path to where the bundle and sourcemap should be written. If omitted, a bundle "
          <> "and sourcemap will not be written.")
      ∷ [];
  check = release_is_valid;
  sets_valid_command = false;
  sets_valid_category = false;
}
