-- ===== src/Management/Endpoints/Names.antt =====
-- The bytes of a name in a path, and a name read back from them.
use mathlib.Core.List.{append-nil}
use code_push.Common.{
  ℕ, ◌<◌, ◌≤◌, ◌≡◌, refl, ap, sym, ◌∙◌, String, true, false, ◌&&◌, List, [], ◌∷◌, ◌++◌, ◌<>◌, inl,
  inr, eqb, if◌then◌else◌, Bool-cases, arith,
}
use Prim.Native.String.{[], ◌∷◌}
use Prim.Native.Char.{Char, code}
use text.Mathlib.TextLemmas.{nil-append, cons-append}
use code_push.Common.Json.{codes}
use code_push.Common.Text.{is_char, count_char, replace_first}
use code_push.Common.Split.{Without, Without-append}
use code_push.Common.Uri.{utf8_code}
use code_push.Common.Uri.Laws.{utf8}
use code_push.Management.Endpoints.{app_name_param}

-- The bytes of a text.
abbrev pub bytes : String → List ℕ
bytes s = utf8 (codes s)

-- A server that writes a slash for "~~".
unfoldable pub restore : List ℕ → List ℕ
restore [] = []
restore (a ∷ []) = a ∷ []
restore (a ∷ b ∷ l) =
    let after = restore l in
    let rest = restore (b ∷ l) in if eqb a b'~' && eqb b b'~' then b'/' ∷ after else a ∷ rest

utf8_code-Without : (n m : ℕ) → n < 128 → eqb m n ≡ false → Without n (utf8_code m)
unfolding utf8_code
utf8_code-Without n m small h = ground arith

pub bytes-Without : (n : ℕ) (s : String) → n < 128 → count_char n s ≡ 0 → Without n (bytes s)
unfolding count_char utf8
bytes-Without n [] small h = tt
bytes-Without n (c ∷ s) small h = elim (Bool-cases (is_char n c)) [
  | inl same ↦ absurd (ground arith)
  | inr other ↦
      Without-append n (utf8_code (code c)) (bytes s)
        (utf8_code-Without n (code c) small (ground arith)) (bytes-Without n s small (ground arith))
]

restore_plain : (a : ℕ) (l : List ℕ) → eqb a b'~' ≡ false → restore (a ∷ l) ≡ a ∷ restore l
unfolding restore
restore_plain a [] h = refl
restore_plain a (b ∷ l) h = rw h refl

restore-Without : (k l : List ℕ) → Without b'~' k → restore (k ++ l) ≡ k ++ restore l
restore-Without [] l h = refl
restore-Without (a ∷ k) l (p, h) = restore_plain a (k ++ l) p ∙ ap (◌∷◌ a) (restore-Without k l h)

slash_lem : (c : Char) → is_char b'/' c ≡ true → utf8_code (code c) ≡ b'/' ∷ []
unfolding utf8_code
slash_lem c h = ground arith

restore-bytes : (s : String) → count_char b'~' s ≡ 0 → restore (bytes s) ≡ bytes s
unfolding restore
restore-bytes s h =
    ap restore (sym (append-nil (bytes s)))
    ∙ restore-Without (bytes s) [] (bytes-Without b'~' s (omega arith) h)
    ∙ append-nil (bytes s)

two_tildes : (s : String) → bytes ("~~" <> s) ≡ b'~' ∷ b'~' ∷ bytes s
unfolding utf8 utf8_code
two_tildes s = rw (cons-append, cons-append, nil-append) refl

restore-two_tildes : (s : String) → restore (bytes ("~~" <> s)) ≡ b'/' ∷ restore (bytes s)
unfolding restore
restore-two_tildes s = ap restore (two_tildes s)

-- A name of at most one slash, without "~", is read back from its parameter.
pub restore-app_name_param :
    (app : String)
    → count_char b'/' app ≤ 1
    → count_char b'~' app ≡ 0
    → restore (bytes (app_name_param app)) ≡ bytes app
unfolding app_name_param replace_first count_char restore utf8
restore-app_name_param [] h k = refl
restore-app_name_param (c ∷ s) h k = elim (Bool-cases (is_char b'/' c)) [
  | inl slash ↦
      rw (slash, slash_lem c slash)
        (restore-two_tildes s ∙ ap (◌∷◌ b'/') (restore-bytes s (ground arith)))
  | inr other ↦ rw other (
      restore-Without (utf8_code (code c)) (bytes (replace_first b'/' "~~" s))
        (utf8_code-Without b'~' (code c) (omega arith) (ground arith))
      ∙ ap (◌++◌ (utf8_code (code c))) (restore-app_name_param s (ground arith) (ground arith)))
]
