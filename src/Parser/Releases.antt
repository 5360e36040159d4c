-- ===== src/Parser/Releases.antt =====
-- `createCommand`: the commands on releases.
use code_push.Common.{String, Option, none, some}
use code_push.Parser.{
  Argv, ReleaseInfo, Command, patch, promote, release, release_cordova, release_react, rollback,
  arg, ◌>>=◌, required,
}
use code_push.Parser.Options.{get_rollout_value}

-- `argv["description"] ? backslash(argv["description"]) : missing`. The library backslash is a
-- parameter.
abbrev description_or : (String → String) → Option String → Argv → Option String
description_or backslash missing argv = elim (required (argv.text_option "description")) [
  | some s ↦ some (backslash s)
  | none ↦ missing
]

-- The options that all releases have; `label` and the version stand elsewhere in some.
abbrev release_info :
    (String → String) → Option String → Option String → Option String → Argv → ReleaseInfo
release_info backslash missing label app_store_version argv = record {
  app_store_version = app_store_version;
  description = description_or backslash missing argv;
  label = label;
  disabled = argv.flag "disabled";
  mandatory = argv.flag "mandatory";
  rollout = get_rollout_value (argv.text_option "rollout");
}

-- `case "patch"`. The description is null where it is not patched.
unfoldable pub create_patch : (String → String) → Argv → Option Command
unfolding arg
create_patch backslash argv = do
  app_name ← required (arg 1 argv)
  deployment_name ← required (arg 2 argv)
  some (
      patch app_name deployment_name (
        release_info backslash none (argv.text_option "label")
          (argv.text_option "targetBinaryVersion") argv))

-- `case "promote"`
unfoldable pub create_promote : (String → String) → Argv → Option Command
unfolding arg
create_promote backslash argv = do
  app_name ← required (arg 1 argv)
  source ← required (arg 2 argv)
  dest ← required (arg 3 argv)
  some (
      promote app_name source dest (argv.flag "noDuplicateReleaseError") (
        release_info backslash (some "") (argv.text_option "label")
          (argv.text_option "targetBinaryVersion") argv))

-- `case "release"`
unfoldable pub create_release : (String → String) → Argv → Option Command
unfolding arg
create_release backslash argv = do
  app_name ← required (arg 1 argv)
  package_path ← required (arg 2 argv)
  app_store_version ← required (arg 3 argv)
  some (
      release app_name package_path (argv.text_option "deploymentName")
        (argv.flag "noDuplicateReleaseError")
        (release_info backslash (some "") none (some app_store_version) argv))

-- `case "release-cordova"`
unfoldable pub create_release_cordova : (String → String) → Argv → Option Command
unfolding arg
create_release_cordova backslash argv = do
  app_name ← required (arg 1 argv)
  platform ← required (arg 2 argv)
  some (
      release_cordova app_name platform (argv.text_option "deploymentName")
        (argv.flag "noDuplicateReleaseError") (argv.flag "build") (argv.flag "isReleaseBuildType")
        (release_info backslash (some "") none (argv.text_option "targetBinaryVersion") argv))

-- `case "release-react"`
unfoldable pub create_release_react : (String → String) → Argv → Option Command
unfolding arg
create_release_react backslash argv = do
  app_name ← required (arg 1 argv)
  platform ← required (arg 2 argv)
  some (
      release_react app_name platform (argv.text_option "deploymentName")
        (argv.flag "noDuplicateReleaseError")
        (release_info backslash (some "") none (argv.text_option "targetBinaryVersion") argv)
        (record {
          bundle_name = argv.text_option "bundleName";
          development = argv.flag "development";
          entry_file = argv.text_option "entryFile";
          gradle_file = argv.text_option "gradleFile";
          plist_file = argv.text_option "plistFile";
          plist_file_prefix = argv.text_option "plistFilePrefix";
          sourcemap_output = argv.text_option "sourcemapOutput";
          output_dir = argv.text_option "outputDir";
        }))

-- `case "rollback"`
unfoldable pub create_rollback : Argv → Option Command
unfolding arg
create_rollback argv = do
  app_name ← required (arg 1 argv)
  deployment_name ← required (arg 2 argv)
  some (rollback app_name deployment_name (argv.text_option "targetRelease"))
