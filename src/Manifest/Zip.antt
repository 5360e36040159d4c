-- ===== src/Manifest/Zip.antt =====
-- `generatePackageManifestFromZip`. The archive is read lazily: the library yauzl emits the next
-- entry, the end or an error only in answer to `readEntry`, which is called once at the start and
-- once after each entry, so that an archive is the list of the answers.
pub mod Laws
use code_push.Common.{
  ℕ, ◌≡◌, refl, String, Bool, true, false, Option, none, some, List, [], ◌∷◌, map, if◌then◌else◌,
  not, ◌&&◌, arith, Bool-cases, inl, inr, ◌≢◌,
}
use code_push.Common.Dict
use code_push.Common.Promise.{Failure, Promise, resolved, rejected, pending, ◌>>=◌, is_pending}
use code_push.Manifest.{PackageManifest, normalize_path, is_ignored}
use code_push.Manifest.Stream.{StreamEvent, hash_stream}

-- What `openReadStream` calls back with.
pub data Opening : Type 0 where
  unopened : Failure → Opening
  opened : List StreamEvent → Opening

-- What `yauzl.open` calls back with, and the answers to `readEntry`: the entries by their file
-- names, and then an error or the end.
pub data Archive : Type 0 where
  unreadable : Failure → Archive
  archive : List (String × Opening) → Option Failure → Archive

-- The promise, and whether the file was closed.
pub record Reading : Type 0 where
  pub promise : Promise (Option PackageManifest)
  pub closed : Bool

module _ (digest : List ℕ → String) where
  hash_opening : Opening → Promise String
  hash_opening (unopened e) = rejected e
  hash_opening (opened events) = hash_stream digest events

  -- The handlers of "entry", "error" and "end", on the entries of `fileHashesMap`. At the end all
  -- promises of `hashFilePromises` have settled.
  read_entries :
      List (String × Opening)
      → Option Failure
      → List (String × String)
      → Promise (Option PackageManifest)
  unfolding hash_opening
  read_entries [] (some e) map = rejected e
  read_entries [] none map = resolved (some (record { entries = map }))
  read_entries ((name, opening) ∷ entries) ending map =
      let file_name = normalize_path name in
      let skipped = read_entries entries ending map in
      let hashed : Promise (Option PackageManifest) = hash_opening opening >>= λ hash.
      read_entries entries ending (Dict.put file_name hash map) in
      if is_ignored file_name then skipped else hashed

  unfoldable pub manifest_from_zip : Archive → Reading
  unfolding read_entries
  -- It may not be an archive: this is no error.
  manifest_from_zip (unreadable e) = record { promise = resolved none; closed = false }
  manifest_from_zip (archive entries ending) =
      let promise = read_entries entries ending [] in
      record { promise = promise; closed = not (is_pending promise) }
