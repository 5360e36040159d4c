-- ===== src/Manifest/Zip/Laws.antt =====
-- The manifest of an archive and that of a directory with the same files.
use code_push.Common.{
  ℕ, ◌≡◌, refl, String, Option, none, some, List, [], ◌∷◌, map, Bool-cases, inl, inr,
}
use code_push.Common.Dict
use code_push.Common.Promise.{Promise, resolved, rejected, pending, ◌>>=◌}
use code_push.Manifest.{PackageManifest, normalize_path, is_ignored}
use code_push.Manifest.Stream.{hash_stream}
use code_push.Manifest.Directory.{
  Disk, listing, hash_file, add_file, add_files, manifest_from_directory,
}
use code_push.Manifest.Zip.{Opening, opened, archive, read_entries, manifest_from_zip}

module _ (digest : List ℕ → String) (disk : Disk) (base_path : String) where
  -- The entry of an archive for a file on the disk.
  abbrev pub zip_entry : String → String × Opening
  zip_entry file_path =
      (disk.relative base_path file_path, opened (disk.create_read_stream file_path))

  finish : Promise (List (String × String)) → Promise (Option PackageManifest)
  finish p = p >>= λ entries. resolved (some (record { entries = entries }))

  finish_lem :
      (p : Promise (List (String × String)))
      → finish p ≡ (p >>= (λ m. resolved (record { entries = m })) >>= λ m. resolved (some m))
  unfolding finish
  finish_lem (resolved m) = refl
  finish_lem (rejected e) = refl
  finish_lem pending = refl

  finish-bind :
      (p : Promise String) (add : String → List (String × String))
      (rest : List (String × String) → Promise (List (String × String)))
      (read : List (String × String) → Promise (Option PackageManifest))
      → ((m : List (String × String)) → read m ≡ finish (rest m))
      → (p >>= λ hash. read (add hash)) ≡ finish (p >>= (λ hash. resolved (add hash)) >>= rest)
  unfolding finish
  finish-bind (resolved hash) add rest read h = h (add hash)
  finish-bind (rejected e) add rest read h = refl
  finish-bind pending add rest read h = refl

  read_entries-map :
      (files : List String) (m : List (String × String))
      → read_entries digest (map zip_entry files) none m
        ≡ finish (add_files digest disk base_path files m)
  unfolding read_entries add_files add_file hash_file
  read_entries-map [] m = unfold finish in refl
  read_entries-map (file ∷ files) m =
      let path = normalize_path (disk.relative base_path file) in
      elim (Bool-cases (is_ignored path)) [
        | inl skipped ↦ rw skipped (read_entries-map files m)
        | inr kept ↦ rw kept (
            finish-bind (hash_stream digest (disk.create_read_stream file))
              (λ hash. Dict.put path hash m) (add_files digest disk base_path files)
              (read_entries digest (map zip_entry files) none) (read_entries-map files))
      ]

  -- An archive whose entries are the files of a directory, under their relative paths and with
  -- their contents, gives the manifest of the directory, or fails or hangs as the directory does.
  pub manifest_from_zip-eq-manifest_from_directory :
      (directory_path file : String) (files : List String)
      → disk.readdirr directory_path ≡ listing (some (file ∷ files))
      → (manifest_from_zip digest (archive (map zip_entry (file ∷ files)) none)).promise
        ≡ (manifest_from_directory digest disk directory_path base_path >>= λ m. resolved (some m))
  unfolding manifest_from_zip manifest_from_directory
  manifest_from_zip-eq-manifest_from_directory directory_path file files found =
      rw (found, read_entries-map (file ∷ files) []) (finish_lem _)
