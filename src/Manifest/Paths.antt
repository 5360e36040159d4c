-- ===== src/Manifest/Paths.antt =====
-- `normalizePath` and `isIgnored`.
use text.Mathlib.TextPositions.{eq_refl}
use text.Mathlib.TextLemmas.{append-ne-nil_of_right_ne-nil, append-eq-nil_iff}
use code_push.Common.{
  ◌-◌, ◌≤◌, String, ◌<>◌, true, ◌≡◌, refl, sym, ap, ◌∙◌, ◌≢◌, ◌↔◌, ◌⊎◌, inl, inr, ◌==◌, eq_iff,
  arith, Option-cases, Bool-cases,
}
use code_push.Common.Text.{length, take, drop, index_of, count_char}
use code_push.Common.Text.Laws.{
  take-append, take-drop, length-drop, length-append, drop-append, index_of_self,
  index_of_of_length-le, count_char-replace_first,
}
use code_push.Manifest.{normalize_path, starts_with, ends_with, is_ignored}

-- `normalizePath` takes away one backslash, if there is one: a path with more of them keeps the
-- others.
pub count_char-normalize_path :
    (path : String) → count_char b'\\' (normalize_path path) ≡ count_char b'\\' path - 1
unfolding normalize_path count_char
count_char-normalize_path path = count_char-replace_first b'\\' "/" path refl

append-ne-nil : (s t : String) → s ≢ "" → s <> t ≢ ""
append-ne-nil s t h e = h (append-eq-nil_iff.0 e).0

starts_with_split :
    (str prefix : String) → starts_with str prefix ≡ true → str ≡ prefix <> drop (length prefix) str
unfolding starts_with
starts_with_split str prefix e =
    let same : take (length prefix) str ≡ prefix =
      ground (arith, eq_iff (take (length prefix) str) prefix) in
    sym (take-drop (length prefix) str) ∙ ap (λ p. p <> drop (length prefix) str) same

starts_with-append :
    (prefix rest : String) → prefix ≢ "" → starts_with (prefix <> rest) prefix ≡ true
unfolding starts_with
starts_with-append prefix rest h =
    rw (take-append, eq_refl)
      (ground (arith, eq_iff (prefix <> rest) "", append-ne-nil prefix rest h))

ends_with_split :
    (str suffix : String)
    → ends_with str suffix ≡ true
    → str ≡ take (length str - length suffix) str <> suffix
unfolding ends_with
ends_with_split str suffix e =
    let k = length str - length suffix in
    elim (Option-cases (index_of suffix (drop k str))) [
      | inl missed ↦ absurd (ground arith)
      | inr (i, found) ↦
          let short : length (drop k str) ≤ length suffix = omega (arith, length-drop k str) in
          sym (take-drop k str)
          ∙ ap (λ t. take k str <> t)
              (sym (index_of_of_length-le suffix (drop k str) i found short))
    ]

ends_with-append : (rest suffix : String) → suffix ≢ "" → ends_with (rest <> suffix) suffix ≡ true
unfolding ends_with
ends_with-append rest suffix h =
    let start : length (rest <> suffix) - length suffix ≡ length rest =
      omega (arith, length-append rest suffix) in
    rw (start, drop-append, index_of_self)
      (ground (arith, eq_iff (rest <> suffix) "", append-ne-nil_of_right_ne-nil rest h))

-- The files that macOS leaves in archives and directories: all below "__MACOSX/", and those whose
-- name, without the directories, is ".DS_Store".
abbrev pub IsMacFile : String → Type 0
IsMacFile path =
    ((rest : String) × (path ≡ "__MACOSX/" <> rest))
    ⊎ (path ≡ ".DS_Store")
    ⊎ ((folder : String) × (path ≡ folder <> "/.DS_Store"))

is_ignored_sound : (path : String) → is_ignored path ≡ true → IsMacFile path
unfolding is_ignored
is_ignored_sound path h = elim (Bool-cases (starts_with path "__MACOSX/")) [
  | inl first ↦ inl (_, starts_with_split path "__MACOSX/" first)
  | inr outside ↦ elim (Bool-cases (path == ".DS_Store")) [
    | inl same ↦ inr (inl ((eq_iff path ".DS_Store").0 same))
    | inr differ ↦ inr (inr (_, ends_with_split path "/.DS_Store" (ground arith)))
  ]
]

is_ignored_complete : (path : String) → IsMacFile path → is_ignored path ≡ true
unfolding is_ignored
is_ignored_complete path (inl (rest, e)) =
    rw (e, starts_with-append "__MACOSX/" rest (λ p. cc (ap length p)))
is_ignored_complete path (inr (inl e)) = ground (arith, eq_iff path ".DS_Store")
is_ignored_complete path (inr (inr (folder, e))) =
    rw (e, ends_with-append folder "/.DS_Store" (λ p. cc (ap length p))) (ground arith)

-- `isIgnored` holds of exactly these files.
pub is_ignored_iff : (path : String) → (is_ignored path ≡ true) ↔ IsMacFile path
is_ignored_iff path = (is_ignored_sound path, is_ignored_complete path)
