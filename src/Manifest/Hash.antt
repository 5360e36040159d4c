-- ===== src/Manifest/Hash.antt =====
-- `computePackageHash`: what the hash of a package depends on.
use mathlib.Core.List.{Perm}
use mathlib.Core.List.Perm
use text.Mathlib.TextLemmas.{nil-append, cons-append}
use Prim.Native.String.{[], ◌∷◌}
use code_push.Common.{
  ℕ, String, List, [], ◌∷◌, map, ◌≡◌, refl, ap, ◌↔◌, inl, inr, Option, none, some, Bool-cases,
  if◌then◌else◌, arith,
}
use code_push.Common.Text.{is_char, count_char}
use code_push.Common.Sort.{sort_of_perm, sort-perm}
use code_push.Common.Utf16.{text_le, text_le-IsOrder, String-set}
use code_push.Common.Json.{stringify, stringify_injective}
use code_push.Manifest.{PackageManifest, entry, hash_input, compute_package_hash}

hash_input_of_perm :
    (m n : PackageManifest) → Perm m.entries n.entries → hash_input m ≡ hash_input n
unfolding hash_input
hash_input_of_perm m n p = ap stringify (sort_of_perm text_le-IsOrder String-set (Perm.map entry p))

-- The hash of a package does not depend on the order in which its files were hashed.
pub compute_package_hash_of_perm :
    (digest : List ℕ → String) (m n : PackageManifest)
    → Perm m.entries n.entries
    → compute_package_hash digest m ≡ compute_package_hash digest n
unfolding compute_package_hash
compute_package_hash_of_perm digest m n p = ap digest (hash_input_of_perm m n p)

-- No hash has a colon: hashes are hexadecimal.
abbrev pub HasPlainHashes : List (String × String) → Type 0
HasPlainHashes [] = Unit
HasPlainHashes ((name, hash) ∷ l) = (count_char b':' hash ≡ 0) × HasPlainHashes l

-- The two parts of a text around its last colon.
split_last : String → Option (String × String)
split_last [] = none
split_last (c ∷ s) = elim (split_last s) [
  | some (before, after) ↦ some (c ∷ before, after)
  | none ↦ if is_char b':' c then some ("", s) else none
]

split_last_of_count_char : (s : String) → count_char b':' s ≡ 0 → split_last s ≡ none
unfolding split_last count_char
split_last_of_count_char [] h = refl
split_last_of_count_char (c ∷ s) h = elim (Bool-cases (is_char b':' c)) [
  | inl colon ↦ absurd (ground arith)
  | inr other ↦ rw (split_last_of_count_char s (ground arith), split_last, other) refl
]

split_last-entry :
    (name hash : String)
    → count_char b':' hash ≡ 0
    → split_last (entry (name, hash)) ≡ some (name, hash)
unfolding split_last
split_last-entry [] hash h =
    simp nil-append
      (rw cons-append (simp nil-append (rw (split_last_of_count_char hash h, split_last))))
split_last-entry (c ∷ name) hash h =
    simp cons-append (rw (split_last-entry name hash h, split_last))

unpack : String → String × String
unpack s = elim (split_last s) [ some p ↦ p | none ↦ (s, "") ]

map-unpack : (l : List (String × String)) → HasPlainHashes l → map unpack (map entry l) ≡ l
unfolding unpack
map-unpack [] h = refl
map-unpack ((name, hash) ∷ l) (plain, h) = cc (split_last-entry name hash plain, map-unpack l h)

same_entries :
    (m n : PackageManifest)
    → hash_input m ≡ hash_input n
    → Perm (map entry m.entries) (map entry n.entries)
unfolding hash_input
same_entries m n e =
    Perm.trans (Perm.symm (sort-perm text_le (map entry m.entries)))
      (rw (stringify_injective _ _ e) (sort-perm text_le (map entry n.entries)))

-- The text that is hashed is the same exactly when the two manifests have the same names with the
-- same hashes, whatever their order, provided that no hash has a colon.
pub hash_input-eq_iff :
    (m n : PackageManifest)
    → HasPlainHashes m.entries
    → HasPlainHashes n.entries
    → (hash_input m ≡ hash_input n) ↔ Perm m.entries n.entries
hash_input-eq_iff m n p q = (
  λ e.
      rw (map-unpack m.entries p, map-unpack n.entries q) at (Perm.map unpack (same_entries m n e)),
  hash_input_of_perm m n,
)
