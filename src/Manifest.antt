-- ===== src/Manifest.antt =====
-- cli/script/hash-utils.ts: paths and the class `PackageManifest`. SHA-256 is the parameter
-- `digest`, from the bytes or code points of its input to the hexadecimal text.
pub mod Hash
pub mod Paths
pub mod Stream
pub mod Directory
pub mod Zip
pub mod Serial
mod Tests
use code_push.Common.{ℕ, ◌-◌, String, ◌<>◌, Bool, ◌&&◌, ◌||◌, List, map, ◌==◌, is_truthy, is_some}
use code_push.Common.Text.{length, take, drop, index_of, replace_first}
use code_push.Common.Sort.{sort}
use code_push.Common.Utf16.{text_le}
use code_push.Common.Json.{stringify}

-- `filePath.replace("\\", "/")`
unfoldable pub normalize_path : String → String
normalize_path file_path = replace_first b'\\' "/" file_path

unfoldable pub starts_with : String → String → Bool
starts_with str prefix = is_truthy str && take (length prefix) str == prefix

-- `indexOf` reads a negative start as 0, which is what `-` gives here.
unfoldable pub ends_with : String → String → Bool
ends_with str suffix =
    is_truthy str && is_some (index_of suffix (drop (length str - length suffix) str))

unfoldable pub is_ignored : String → Bool
is_ignored path = starts_with path "__MACOSX/" || path == ".DS_Store" || ends_with path "/.DS_Store"

-- The private field `_map`, from names to hashes.
pub record PackageManifest : Type 0 where
  pub entries : List (String × String)

abbrev entry : String × String → String
entry (name, hash) = name <> ":" <> hash

-- The text that is hashed: the JSON array of the sorted entries.
unfoldable pub hash_input : PackageManifest → List ℕ
hash_input m = stringify (sort text_le (map entry m.entries))

-- `computePackageHash`
unfoldable pub compute_package_hash : (List ℕ → String) → PackageManifest → String
unfolding hash_input
compute_package_hash digest m = digest (hash_input m)
