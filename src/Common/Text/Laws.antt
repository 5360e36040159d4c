-- ===== src/Common/Text/Laws.antt =====
-- Parts of texts: when `take`, `has_prefix` and `index_of` find a given text at an end.
use Prim.Native.String.{String, [], ◌∷◌, ◌++◌ as ◌<>◌}
use Prim.Native.Nat.{ℕ, zero, suc, ◌+◌, ◌-◌, ◌≤◌}
use mathlib.Core.Path.{◌≡◌, refl, ap, ap₂, ◌∙◌}
use mathlib.Core.Logic.{inl, inr}
use mathlib.Core.Bool.{true}
use mathlib.Core.Option.{some}
use native.Mathlib.Omega.{arith}
use text.Mathlib.TextEquality.{Char-path}
use text.Mathlib.TextLemmas.{nil-append, cons-append}
use code_push.Common.{Bool-cases, Option-cases}
use code_push.Common.Text.{
  is_char, has_prefix, index_of, drop, take, length, replace_first, count_char,
}

pub take-append : (p s : String) → take (length p) (p <> s) ≡ p
unfolding take
take-append [] s = refl
take-append (c ∷ p) s = rw cons-append (ap (◌∷◌ c) (take-append p s))

pub take-drop : (n : ℕ) (s : String) → take n s <> drop n s ≡ s
unfolding take drop
take-drop zero s = nil-append s
take-drop (suc n) [] = nil-append []
take-drop (suc n) (c ∷ s) = cons-append c (take n s) (drop n s) ∙ ap (◌∷◌ c) (take-drop n s)

pub length-drop : (n : ℕ) (s : String) → length (drop n s) ≡ length s - n
unfolding drop
length-drop zero s = omega arith
length-drop (suc n) [] = omega arith
length-drop (suc n) (c ∷ s) = omega (arith, length-drop n s)

pub length-append : (s t : String) → length (s <> t) ≡ length s + length t
length-append [] t = rw nil-append (omega arith)
length-append (c ∷ s) t = rw cons-append (omega (arith, length-append s t))

pub drop-append : (s t : String) → drop (length s) (s <> t) ≡ t
unfolding drop
drop-append [] t = nil-append t
drop-append (c ∷ s) t = rw cons-append (drop-append s t)

-- A prefix that is as long as the text is the text.
pub has_prefix_of_length-le : (p s : String) → has_prefix p s ≡ true → length s ≤ length p → p ≡ s
unfolding has_prefix
has_prefix_of_length-le [] [] h k = refl
has_prefix_of_length-le [] (d ∷ s) h k = absurd (omega arith)
has_prefix_of_length-le (c ∷ p) [] h k = cc
has_prefix_of_length-le (c ∷ p) (d ∷ s) h k =
    ap₂ ◌∷◌ (Char-path c d (ground arith))
      (has_prefix_of_length-le p s (ground arith) (omega arith))

pub has_prefix-length : (p s : String) → has_prefix p s ≡ true → length p ≤ length s
unfolding has_prefix
has_prefix-length [] s h = omega arith
has_prefix-length (c ∷ p) [] h = cc
has_prefix-length (c ∷ p) (d ∷ s) h = ground (arith, has_prefix-length p s)

pub has_prefix_self : (s : String) → has_prefix s s ≡ true
unfolding has_prefix
has_prefix_self [] = refl
has_prefix_self (c ∷ s) = ground (arith, has_prefix_self s)

pub index_of-length : (p s : String) (i : ℕ) → index_of p s ≡ some i → length p ≤ length s
unfolding index_of
index_of-length p [] i h = ground (arith, has_prefix-length p [])
index_of-length p (c ∷ s) i h = elim (Option-cases (index_of p s)) [
  | inl missed ↦ ground (arith, has_prefix-length p (c ∷ s))
  | inr (j, found) ↦ ground (arith, has_prefix-length p (c ∷ s), index_of-length p s j found)
]

pub index_of_self : (s : String) → index_of s s ≡ some 0
unfolding index_of
index_of_self [] = refl
index_of_self (c ∷ s) = rw (has_prefix_self (c ∷ s))

-- Found in a text that is no longer, a text is all of it.
pub index_of_of_length-le :
    (p s : String) (i : ℕ) → index_of p s ≡ some i → length s ≤ length p → p ≡ s
unfolding index_of
index_of_of_length-le p [] i h k = has_prefix_of_length-le p [] (ground arith) k
index_of_of_length-le p (c ∷ s) i h k = elim (Option-cases (index_of p s)) [
  | inl missed ↦ has_prefix_of_length-le p (c ∷ s) (ground arith) k
  | inr (j, found) ↦ absurd (omega (arith, index_of-length p s j found))
]

-- The first occurrence is replaced, and all others stay.
pub count_char-append :
    (n : ℕ) (s t : String) → count_char n (s <> t) ≡ count_char n s + count_char n t
unfolding count_char
count_char-append n [] t = rw nil-append (omega arith)
count_char-append n (c ∷ s) t = rw cons-append (ground (arith, count_char-append n s t))

pub count_char-replace_first :
    (n : ℕ) (r s : String)
    → count_char n r ≡ 0
    → count_char n (replace_first n r s) ≡ count_char n s - 1
unfolding count_char replace_first
count_char-replace_first n r [] h = omega arith
count_char-replace_first n r (c ∷ s) h = elim (Bool-cases (is_char n c)) [
  | inl same ↦ rw (same, count_char-append n r s) (omega arith)
  | inr other ↦ rw (other, other) (count_char-replace_first n r s h)
]

pub replace_first_of_count_char :
    (n : ℕ) (r s : String) → count_char n s ≡ 0 → replace_first n r s ≡ s
unfolding count_char replace_first
replace_first_of_count_char n r [] h = refl
replace_first_of_count_char n r (c ∷ s) h = elim (Bool-cases (is_char n c)) [
  | inl same ↦ absurd (ground arith)
  | inr other ↦ rw other (ap (◌∷◌ c) (replace_first_of_count_char n r s (ground arith)))
]
