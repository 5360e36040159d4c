-- ===== src/Executor/Project.antt =====
-- What the release commands find in the project in the working directory: the files that libraries
-- parse, and the tools that they start.
use code_push.Common.{ℕ, String, Bool, Option, List}
use code_push.Common.Promise.{Done, Promise}

-- config.xml by xml2js: the version is an attribute of the element `widget`.
pub data ConfigXml : Type 0 where
  unreadable malformed without_widget : ConfigXml
  parsed : (version : Option String) → ConfigXml

-- `which` and `execSync` (which throws where a command fails).
pub record CordovaProject : Type 0 where
  pub has_tool : String → Bool
  pub succeeds : List String → Bool
  pub config : ConfigXml

pub data PackageJson : Type 0 where
  unreadable : PackageJson
  parsed : (name : Option String) (is_react_native : Bool) → PackageJson

-- Info.plist by plist: `CFBundleShortVersionString`.
pub data Plist : Type 0 where
  malformed : Plist
  parsed : (version : Option String) → Plist

-- `versionName`, where it is there and counts as true.
pub data VersionName : Type 0 where
  missing not_text : VersionName
  text : String → VersionName

-- build.gradle by gradle-to-js: `android` is one node, an array of nodes, or missing.
pub data Gradle : Type 0 where
  malformed without_android : Gradle
  one : VersionName → Gradle
  several : List VersionName → Gradle

pub data PropertiesFile : Type 0 where
  malformed : PropertiesFile
  parsed : (String → Option String) → PropertiesFile

-- Package.appxmanifest by xml2js: the version, where `Identity` has one.
pub data Appx : Type 0 where
  unreadable malformed : Appx
  parsed : (version : Option String) → Appx

-- The parsed files by their paths, and the exit code of a child process, which is missing where a
-- signal ended it.
pub record ReactProject : Type 0 where
  pub package_json : PackageJson
  pub plist : String → Plist
  pub gradle : String → Gradle
  pub properties : String → PropertiesFile
  pub appx : String → Appx
  pub exit_code : List String → Promise (Option ℕ)

-- What the debug command finds: whether adb is there and what "adb devices" prints (which throws
-- where it fails), the platform, the simulators that are booted, and what the promise of a process
-- of logs settles with.
pub record DebugTools : Type 0 where
  pub has_adb : Bool
  pub adb_devices : Option String
  pub is_darwin : Bool
  pub booted_simulators : List String
  pub home : String
  pub log_ends : List String → Promise Done
