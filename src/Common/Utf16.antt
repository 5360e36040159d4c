-- ===== src/Common/Utf16.antt =====
-- Texts in the order of their UTF-16 code units, which is how JavaScript compares and sorts them.
use Prim.Native.Char.{Char, char, code, IsScalar}
use Prim.Native.String.{String, [], ◌∷◌}
use mathlib.Core.List.{List, [], ◌∷◌}
use mathlib.Core.Bool.{false≢true}
use mathlib.Core.HLevel.{hedberg}
use text.Mathlib.TextEquality.{Char-path}
use code_push.Common.{
  ℕ, ◌+◌, ◌-◌, ◌/◌, ◌%◌, ◌<◌, Bool, true, false, ◌≡◌, refl, sym, ◌∙◌, ◌⊎◌, inl, inr, arith, ltb,
  eqb, if◌then◌else◌, ◌==◌, eq_iff, Bool-cases,
}
use code_push.Common.Sort.{IsOrder}

-- The code units of a text: a character above U+FFFF is a pair of surrogates.
unfoldable pub units : String → List ℕ
units [] = []
units (c ∷ s) =
    let rest = units s in
    let high = 55296 + (code c - 65536) / 1024 in
    let low = 56320 + (code c - 65536) % 1024 in
    if ltb (code c) 65536 then code c ∷ rest else high ∷ low ∷ rest

units_le : List ℕ → List ℕ → Bool
units_le [] ys = true
units_le (x ∷ xs) [] = false
units_le (x ∷ xs) (y ∷ ys) = if ltb x y then true else if eqb x y then units_le xs ys else false

-- `s <= t` on strings
unfoldable pub text_le : String → String → Bool
unfolding units_le
text_le s t = units_le (units s) (units t)

units_le_total : (xs ys : List ℕ) → (units_le xs ys ≡ true) ⊎ (units_le ys xs ≡ true)
unfolding units_le
units_le_total [] ys = ground arith
units_le_total (x ∷ xs) [] = ground arith
units_le_total (x ∷ xs) (y ∷ ys) = ground (arith, units_le_total xs ys)

units_le_antisymm : (xs ys : List ℕ) → units_le xs ys ≡ true → units_le ys xs ≡ true → xs ≡ ys
unfolding units_le
units_le_antisymm [] [] h k = refl
units_le_antisymm [] (y ∷ ys) h k = cc
units_le_antisymm (x ∷ xs) [] h k = cc
units_le_antisymm (x ∷ xs) (y ∷ ys) h k = ground (arith, units_le_antisymm xs ys)

units_le_trans :
    (xs ys zs : List ℕ) → units_le xs ys ≡ true → units_le ys zs ≡ true → units_le xs zs ≡ true
unfolding units_le
units_le_trans [] ys zs h k = refl
units_le_trans (x ∷ xs) [] zs h k = cc
units_le_trans (x ∷ xs) (y ∷ ys) [] h k = cc
units_le_trans (x ∷ xs) (y ∷ ys) (z ∷ zs) h k = ground (arith, units_le_trans xs ys zs)

IsScalar-range : (n : ℕ) → IsScalar n → (n < 55296) ⊎ ((57343 < n) × (n < 1114112))
IsScalar-range n h = ground arith

pub code_range : (c : Char) → (code c < 55296) ⊎ ((57343 < code c) × (code c < 1114112))
code_range (char n h) = IsScalar-range n h

units_injective : (s t : String) → units s ≡ units t → s ≡ t
unfolding units
units_injective [] [] h = refl
units_injective [] (d ∷ t) h = ground arith
units_injective (c ∷ s) [] h = ground arith
units_injective (c ∷ s) (d ∷ t) h =
    ground (arith, code_range c, code_range d, Char-path c d, units_injective s t)

pub text_le-IsOrder : IsOrder text_le
unfolding text_le
text_le-IsOrder = record {
  total = λ s t. units_le_total (units s) (units t);
  antisymm = λ s t h k. units_injective s t (units_le_antisymm (units s) (units t) h k);
  trans = λ s t u. units_le_trans (units s) (units t) (units u);
}

String-discrete : Discrete String
String-discrete s t = elim (Bool-cases (s == t)) [
  | inl same ↦ yes ((eq_iff s t).0 same)
  | inr other ↦ no (λ p. false≢true (sym other ∙ (eq_iff s t).1 p))
]

pub String-set : IsSet String
String-set = hedberg String-discrete
