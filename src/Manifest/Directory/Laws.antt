-- ===== src/Manifest/Directory/Laws.antt =====
-- What a manifest of a directory holds.
use code_push.Common.{
  ℕ, ◌≡◌, refl, ◌==◌, arith, Bool-cases, ◌&&◌, inl, inr, String, Option, none, some, List, [], ◌∷◌,
  true, if◌then◌else◌, not, ◌⊎◌,
}
use code_push.Common.Dict
use code_push.Common.Promise.{Promise, resolved, ◌>>=◌, >>=-eq-resolved}
use code_push.Manifest.{PackageManifest, normalize_path, is_ignored}
use code_push.Manifest.Directory.{
  Disk, listing, hash_file, add_file, add_files, manifest_from_directory,
}

module _ (digest : List ℕ → String) (disk : Disk) where
  -- The hash with which a promise was resolved, if it was.
  abbrev value : Promise String → Option String
  value (resolved hash) = some hash
  value _ = none

  -- What the files give for a name: the hash of the last of them with that relative path, unless
  -- it is ignored.
  pub hash_of_name : String → List String → String → Option String → Option String
  hash_of_name base_path [] name found = found
  hash_of_name base_path (file_path ∷ files) name found =
      let relative_path = normalize_path (disk.relative base_path file_path) in
      hash_of_name base_path files name (
        if not (is_ignored relative_path) && relative_path == name
        then value (hash_file digest disk file_path)
        else found)

  get-add_file :
      (base_path file_path name : String) (map map' : List (String × String))
      → add_file digest disk base_path file_path map ≡ resolved map'
      → Dict.get name map' ≡ (
          if not (is_ignored (normalize_path (disk.relative base_path file_path)))
            && normalize_path (disk.relative base_path file_path) == name
          then value (hash_file digest disk file_path)
          else Dict.get name map)
  unfolding add_file
  get-add_file base_path file_path name map map' e =
      let path = normalize_path (disk.relative base_path file_path) in
      elim (Bool-cases (is_ignored path)) [
        | inl skipped ↦ ground arith
        | inr kept ↦
            let stored : (hash_file digest disk file_path >>= λ hash.
            resolved (Dict.put path hash map))
                ≡ resolved map' =
              rw kept at e in
            let (hash, hashed, put) = >>=-eq-resolved (hash_file digest disk file_path) _ stored in
            ground (arith, Dict.get-put path name hash map)
      ]

  get-add_files :
      (base_path : String) (files : List String) (name : String) (map map' : List (String × String))
      → add_files digest disk base_path files map ≡ resolved map'
      → Dict.get name map' ≡ hash_of_name base_path files name (Dict.get name map)
  unfolding add_files hash_of_name
  get-add_files base_path [] name map map' e = ground arith
  get-add_files base_path (file_path ∷ files) name map map' e =
      let (map'', first, rest) =
        >>=-eq-resolved (add_file digest disk base_path file_path map) _ e in
      rw (get-add_file base_path file_path name map map'' first) at
        (get-add_files base_path files name map'' map' rest)

  -- A file is ignored, or its contents can be read.
  abbrev pub IsReadable : String → String → Type 0
  IsReadable base_path file_path =
      (is_ignored (normalize_path (disk.relative base_path file_path)) ≡ true)
      ⊎ ((hash : String) × (hash_file digest disk file_path ≡ resolved hash))

  abbrev pub AllReadable : String → List String → Type 0
  AllReadable base_path [] = Unit
  AllReadable base_path (file_path ∷ files) =
      IsReadable base_path file_path × AllReadable base_path files

  add_file_total :
      (base_path file_path : String) (map : List (String × String))
      → IsReadable base_path file_path
      → Dict.NodupKeys map
      → (map' : List (String × String)) × (add_file digest disk base_path file_path map
          ≡ resolved map')
        × Dict.NodupKeys map'
  unfolding add_file
  add_file_total base_path file_path map (inl skipped) u = (map, rw skipped, u)
  add_file_total base_path file_path map (inr (hash, hashed)) u =
      let path = normalize_path (disk.relative base_path file_path) in
      elim (Bool-cases (is_ignored path)) [
        | inl skipped ↦ (map, rw skipped, u)
        | inr kept ↦ (Dict.put path hash map, rw (kept, hashed), Dict.put-NodupKeys path hash map u)
      ]

  add_files_total :
      (base_path : String) (files : List String) (map : List (String × String))
      → AllReadable base_path files
      → Dict.NodupKeys map
      → (map' : List (String × String)) × (add_files digest disk base_path files map
          ≡ resolved map')
        × Dict.NodupKeys map'
  unfolding add_files
  add_files_total base_path [] map r u = (map, refl, u)
  add_files_total base_path (file_path ∷ files) map (here, r) u =
      let (map', first, u') = add_file_total base_path file_path map here u in
      let (all, rest, v) = add_files_total base_path files map' r u' in (all, rw first rest, v)

  -- Of a listing with a file, all of whose files are ignored or can be read, a manifest is made. Each
  -- name has at most one entry, and its hash is that of the last file with this relative path
  -- that is not ignored.
  pub manifest_from_directory_lem :
      (directory_path base_path file : String) (files : List String)
      → disk.readdirr directory_path ≡ listing (some (file ∷ files))
      → AllReadable base_path (file ∷ files)
      → (m : PackageManifest) × (manifest_from_directory digest disk directory_path base_path
          ≡ resolved m)
        × Dict.NodupKeys m.entries
        × ((name : String)
            → Dict.get name m.entries ≡ hash_of_name base_path (file ∷ files) name none)
  unfolding manifest_from_directory Dict.get
  manifest_from_directory_lem directory_path base_path file files found r =
      let (map, made, u) = add_files_total base_path (file ∷ files) [] r tt in
      (
        record { entries = map },
        rw (found, made),
        u,
        λ name. get-add_files base_path (file ∷ files) name [] map made,
      )
