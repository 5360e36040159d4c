-- ===== src/Manifest/Directory.antt =====
-- `generatePackageManifestFromDirectory` and `generatePackageHashFromDirectory`. The file system is
-- the parameter `Disk`; the files are hashed one after the other.
pub mod Laws
use code_push.Common.{
  ℕ, ◌≡◌, refl, ◌==◌, eq_iff, arith, Bool-cases, ◌&&◌, inl, inr, String, Bool, true, false, Option,
  none, some, List, [], ◌∷◌, if◌then◌else◌, not,
}
use code_push.Common.Dict
use code_push.Common.Promise.{
  Failure, error, Promise, resolved, rejected, pending, ◌>>=◌, >>=-eq-resolved,
}
use code_push.Manifest.{PackageManifest, normalize_path, is_ignored, compute_package_hash}
use code_push.Manifest.Stream.{StreamEvent, hash_stream}

-- What `recursiveFs.readdirr` calls back with; `files` may be undefined.
pub data Listing : Type 0 where
  unreadable : Failure → Listing
  listing : Option (List String) → Listing

-- The operations of `fs`, `recursive-fs` and `path` that are called.
pub record Disk : Type 0 where
  pub is_directory : String → Bool
  pub readdirr : String → Listing
  pub create_read_stream : String → List StreamEvent
  -- `path.relative`
  pub relative : String → String → String

module _ (digest : List ℕ → String) (disk : Disk) where
  unfoldable pub hash_file : String → Promise String
  hash_file path = hash_stream digest (disk.create_read_stream path)

  -- One round of the `reduce`, on the entries of `fileHashesMap`.
  unfoldable pub add_file :
      String → String → List (String × String) → Promise (List (String × String))
  add_file base_path file_path map =
      let relative_path = normalize_path (disk.relative base_path file_path) in
      if is_ignored relative_path
      then resolved map
      else do hash ← hash_file file_path; resolved (Dict.put relative_path hash map)

  unfoldable pub add_files :
      String → List String → List (String × String) → Promise (List (String × String))
  unfolding add_file
  add_files base_path [] map = resolved map
  add_files base_path (file_path ∷ files) map = do
    map' ← add_file base_path file_path map
    add_files base_path files map'

  manifest_of_listing : String → Listing → Promise PackageManifest
  unfolding add_files
  manifest_of_listing base_path (unreadable e) = rejected e
  manifest_of_listing base_path (listing none) =
      rejected (error "Error: Can't sign the release because no files were found.")
  manifest_of_listing base_path (listing (some [])) =
      rejected (error "Error: Can't sign the release because no files were found.")
  manifest_of_listing base_path (listing (some (file ∷ files))) = do
    map ← add_files base_path (file ∷ files) []
    resolved (record { entries = map })

  unfoldable pub manifest_from_directory : String → String → Promise PackageManifest
  unfolding manifest_of_listing
  manifest_from_directory directory_path base_path =
      manifest_of_listing base_path (disk.readdirr directory_path)

  -- `generatePackageHashFromDirectory`; the error is thrown before a promise is made.
  unfoldable pub package_hash_from_directory : String → String → Promise String
  unfolding manifest_from_directory
  package_hash_from_directory directory_path base_path =
      if not (disk.is_directory directory_path)
      then rejected (error "Not a directory. Please either create a directory, or use hashFile().")
      else do
        manifest ← manifest_from_directory directory_path base_path
        resolved (compute_package_hash digest manifest)
