-- ===== src/Common/Text.antt =====
-- The string operations of JavaScript that the program uses, over texts of Unicode characters:
-- `indexOf`, `substring`, `replace` of the first occurrence of a character, `trim`.
use Prim.Native.Char.{Char, code}
pub mod Laws
use Prim.Native.String
use Prim.Native.String.{String, [], ◌∷◌}
use Prim.Native.Nat.{ℕ, zero, suc, ◌-◌, compare, Ordering}
use mathlib.Core.Bool.{Bool, true, false, ◌&&◌, cond}
use mathlib.Core.Option
use mathlib.Core.Option.{Option, none, some}

-- The characters are the same.
abbrev pub is_char : ℕ → Char → Bool
is_char n c = elim (compare n (code c)) [ Ordering.eq ↦ true | _ ↦ false ]

abbrev pub same_char : Char → Char → Bool
same_char c d = is_char (code c) d

-- `s` begins with `p`.
unfoldable pub has_prefix : String → String → Bool
has_prefix [] s = true
has_prefix (p ∷ ps) [] = false
has_prefix (p ∷ ps) (c ∷ s) = same_char p c && has_prefix ps s

-- The place of the first occurrence of `p` in `s`, counted in characters; `none` is -1.
unfoldable pub index_of : String → String → Option ℕ
unfolding has_prefix
index_of p [] = cond (has_prefix p []) (some 0) none
index_of p (c ∷ s) = cond (has_prefix p (c ∷ s)) (some 0) (Option.map suc (index_of p s))

-- `s.substring(n)`
unfoldable pub drop : ℕ → String → String
drop zero s = s
drop (suc n) [] = []
drop (suc n) (c ∷ s) = drop n s

-- `s.substring(0, n)`
unfoldable pub take : ℕ → String → String
take zero s = []
take (suc n) [] = []
take (suc n) (c ∷ s) = c ∷ take n s

-- `s.length`, where `s` has no character above U+FFFF
abbrev pub length : String → ℕ
length [] = 0
length (c ∷ s) = suc (length s)

-- `s.replace(c, r)` with a text `c` of one character: only the first occurrence is replaced.
unfoldable pub replace_first : ℕ → String → String → String
replace_first n r [] = []
replace_first n r (c ∷ s) = cond (is_char n c) (String.◌++◌ r s) (c ∷ replace_first n r s)

-- The number of times that a character occurs.
unfoldable pub count_char : ℕ → String → ℕ
count_char n [] = 0
count_char n (c ∷ s) = let rest = count_char n s in cond (is_char n c) (suc rest) rest

-- One of the letters A to Z.
abbrev if_upper : Char → Char → Char → Char
if_upper c x y = elim (compare (code c) 65) [
  | Ordering.lt ↦ y
  | _ ↦ elim (compare (code c) 90) [ Ordering.gt ↦ y | _ ↦ x ]
]

lower_char : Char → String → Char
lower_char c [] = c
lower_char c (d ∷ s) = d

-- `s.toLowerCase()`, on the letters A to Z. Apart from these only the Kelvin sign becomes one of the
-- letters a to z.
unfoldable pub to_lower : String → String
unfolding drop lower_char
to_lower [] = []
to_lower (c ∷ s) =
    (if_upper c (lower_char c (drop (code c - 65) "abcdefghijklmnopqrstuvwxyz")) c) ∷ to_lower s
