-- ===== src/Manifest/Tests.antt =====
-- Runs of the hashing utilities, and their theorems at concrete data.
use mathlib.Core.List.Perm
use mathlib.Core.List.{Perm}
use code_push.Common.{
  ℕ, ◌-◌, ◌≡◌, refl, ◌↔◌, ◌<>◌, String, true, false, none, some, List, [], ◌∷◌, map, inr,
}
use code_push.Common.Dict
use code_push.Common.Promise.{resolved, error, ◌>>=◌}
use code_push.Common.Text.{take, drop, index_of, count_char, replace_first}
use code_push.Common.Sort.{sort}
use code_push.Common.Utf16.{text_le, units}
use code_push.Common.Json.{stringify, codes}
use code_push.Manifest.{
  PackageManifest, normalize_path, starts_with, ends_with, is_ignored, hash_input,
  compute_package_hash,
}
use code_push.Manifest.Hash.{compute_package_hash_of_perm, hash_input-eq_iff}
use code_push.Manifest.Paths.{count_char-normalize_path, IsMacFile, is_ignored_iff}
use code_push.Manifest.Stream.{
  chunk, fails, ends, hash_stream, stream_result, hash_stream-eq-stream_result,
}
use code_push.Manifest.Directory.{Disk, listing, hash_file, manifest_from_directory}
use code_push.Manifest.Directory.Laws.{hash_of_name, manifest_from_directory_lem}
use code_push.Manifest.Zip.{archive, manifest_from_zip}
use code_push.Manifest.Zip.Laws.{zip_entry, manifest_from_zip-eq-manifest_from_directory}

abbrev two_files : PackageManifest
two_files = record { entries = ("b/c.js", "0f") ∷ ("a.js", "7e") ∷ [] }

abbrev swapped : PackageManifest
swapped = record { entries = ("a.js", "7e") ∷ ("b/c.js", "0f") ∷ [] }

-- A digest that keeps only the length.
abbrev short_digest : List ℕ → String
short_digest [] = ""
short_digest (n ∷ l) = "x" <> short_digest l

hash_input_test : hash_input two_files ≡ codes "[\"a.js:7e\",\"b/c.js:0f\"]"
unfolding hash_input sort text_le units stringify
hash_input_test = refl

ignored_tests :
    (is_ignored "__MACOSX/a" ≡ true)
    × (is_ignored ".DS_Store" ≡ true)
    × (is_ignored "a/b/.DS_Store" ≡ true)
    × (is_ignored "a.DS_Store" ≡ false)
    × (is_ignored "a/__MACOSX/b" ≡ false)
    × (is_ignored "" ≡ false)
unfolding is_ignored starts_with ends_with take drop index_of
ignored_tests = (refl, refl, refl, refl, refl, refl)

normalize_test : normalize_path "a\\b\\c" ≡ "a/b\\c"
unfolding normalize_path replace_first
normalize_test = refl

abbrev disk : Disk
disk = record {
  is_directory = λ path. true;
  readdirr = λ path. listing (some ("a.js" ∷ ".DS_Store" ∷ []));
  create_read_stream = λ path. chunk (1 ∷ []) ∷ chunk (2 ∷ []) ∷ ends ∷ [];
  relative = λ base path. path;
}

directory_test :
    manifest_from_directory short_digest disk "." "."
    ≡ resolved (record { entries = ("a.js", "xx") ∷ [] })
unfolding manifest_from_directory hash_file hash_stream is_ignored starts_with ends_with take drop
    index_of normalize_path replace_first Dict.put
directory_test = refl

hash_order_test :
    compute_package_hash short_digest two_files ≡ compute_package_hash short_digest swapped
hash_order_test =
    compute_package_hash_of_perm short_digest two_files swapped
      (Perm.swap ("a.js", "7e") ("b/c.js", "0f") [])

hash_input-eq_iff_example :
    (hash_input two_files ≡ hash_input swapped) ↔ Perm two_files.entries swapped.entries
unfolding count_char
hash_input-eq_iff_example =
    hash_input-eq_iff two_files swapped (refl, (refl, tt)) (refl, (refl, tt))

count_char-normalize_path_example :
    count_char b'\\' (normalize_path "a\\b\\c") ≡ count_char b'\\' "a\\b\\c" - 1
count_char-normalize_path_example = count_char-normalize_path "a\\b\\c"

resource_file_test : (is_ignored "a/.DS_Store" ≡ true) ↔ IsMacFile "a/.DS_Store"
resource_file_test = is_ignored_iff "a/.DS_Store"

hash_stream-eq-stream_result_example :
    hash_stream short_digest (chunk (7 ∷ []) ∷ fails (error "gone") ∷ ends ∷ [])
    ≡ stream_result short_digest [] (chunk (7 ∷ []) ∷ fails (error "gone") ∷ ends ∷ [])
hash_stream-eq-stream_result_example =
    hash_stream-eq-stream_result short_digest (chunk (7 ∷ []) ∷ fails (error "gone") ∷ ends ∷ [])

manifest_from_directory_lem_example :
    (m : PackageManifest) × (manifest_from_directory short_digest disk "." "." ≡ resolved m)
    × Dict.NodupKeys m.entries
    × ((name : String)
        → Dict.get name m.entries
          ≡ hash_of_name short_digest disk "." ("a.js" ∷ ".DS_Store" ∷ []) name none)
unfolding hash_file hash_stream
manifest_from_directory_lem_example =
    manifest_from_directory_lem short_digest disk "." "." "a.js" (".DS_Store" ∷ []) refl
      (inr ("xx", refl), (inr ("xx", refl), tt))

manifest_from_zip-eq-manifest_from_directory_example :
    (manifest_from_zip short_digest
      (archive (map (zip_entry short_digest disk ".") ("a.js" ∷ ".DS_Store" ∷ [])) none)).promise
    ≡ (manifest_from_directory short_digest disk "." "." >>= λ m. resolved (some m))
manifest_from_zip-eq-manifest_from_directory_example =
    manifest_from_zip-eq-manifest_from_directory short_digest disk "." "." "a.js" (".DS_Store" ∷ [])
      refl
