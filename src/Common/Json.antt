-- ===== src/Common/Json.antt =====
-- `JSON.stringify` of an array of strings, as the list of its code points, and of an object whose
-- keys and values are lists of code units.
use Prim.Native.Char.{code}
use Prim.Native.String.{String, [], ◌∷◌}
use mathlib.Core.List.{List, [], ◌∷◌}
use text.Mathlib.TextEquality.{Char-path}
use code_push.Common.{ℕ, ◌+◌, ◌-◌, ◌/◌, ◌%◌, ◌≡◌, refl, sym, arith, ltb, eqb, if◌then◌else◌}

abbrev pub codes : String → List ℕ
codes [] = []
codes (c ∷ s) = code c ∷ codes s

pub codes_injective : (s t : String) → codes s ≡ codes t → s ≡ t
codes_injective [] [] h = refl
codes_injective [] (d ∷ t) h = ground arith
codes_injective (c ∷ s) [] h = ground arith
codes_injective (c ∷ s) (d ∷ t) h = ground (arith, Char-path c d, codes_injective s t)

-- A hexadecimal digit, in lower case.
unfoldable pub hex_digit : ℕ → ℕ
hex_digit k = if ltb k 10 then b'0' + k else b'a' + k - 10

-- The letter behind the backslash, for the characters that have one; 0 for the others.
unfoldable pub short_escape : ℕ → ℕ
short_escape n =
    if eqb n b'"'
    then b'"'
    else if eqb n b'\\'
    then b'\\'
    else if eqb n 8
    then b'b'
    else if eqb n 9
    then b't'
    else if eqb n 10
    then b'n'
    else if eqb n 12
    then b'f'
    else if eqb n 13
    then b'r'
    else 0

-- One character between quotation marks, in front of the rest.
unfoldable pub quote_code : ℕ → List ℕ → List ℕ
unfolding short_escape hex_digit
quote_code n rest =
    if ltb 0 (short_escape n)
    then b'\\' ∷ short_escape n ∷ rest
    else if ltb n 32
    then b'\\' ∷ b'u' ∷ b'0' ∷ b'0' ∷ hex_digit (n / 16) ∷ hex_digit (n % 16) ∷ rest
    else n ∷ rest

-- A string behind its opening quotation mark, in front of the rest.
unfoldable pub quote_codes : List ℕ → List ℕ → List ℕ
unfolding quote_code
quote_codes [] rest = b'"' ∷ rest
quote_codes (n ∷ l) rest = quote_code n (quote_codes l rest)

-- The elements behind the first one, and the closing bracket.
stringify_tail : List String → List ℕ
unfolding quote_codes
stringify_tail [] = b']' ∷ []
stringify_tail (s ∷ l) = b',' ∷ b'"' ∷ quote_codes (codes s) (stringify_tail l)

-- `JSON.stringify(l)`
unfoldable pub stringify : List String → List ℕ
unfolding stringify_tail
stringify [] = b'[' ∷ b']' ∷ []
stringify (s ∷ l) = b'[' ∷ b'"' ∷ quote_codes (codes s) (stringify_tail l)

-- The members behind the first one, and the closing brace.
unfoldable pub member_codes : List ℕ → List ℕ → List ℕ → List ℕ
unfolding quote_codes
member_codes key value rest = b'"' ∷ quote_codes key (b':' ∷ b'"' ∷ quote_codes value rest)

unfoldable pub stringify_members : List (List ℕ × List ℕ) → List ℕ
unfolding member_codes
stringify_members [] = b'}' ∷ []
stringify_members ((key, value) ∷ l) = b',' ∷ member_codes key value (stringify_members l)

-- `JSON.stringify` of an object whose values are texts.
unfoldable pub stringify_object : List (List ℕ × List ℕ) → List ℕ
unfolding stringify_members member_codes
stringify_object [] = b'{' ∷ b'}' ∷ []
stringify_object ((key, value) ∷ l) = b'{' ∷ member_codes key value (stringify_members l)

-- No code for a character is the beginning of another.
quote_code_injective :
    (m n : ℕ) (s t : List ℕ) → quote_code m s ≡ quote_code n t → (m ≡ n) × (s ≡ t)
unfolding quote_code
quote_code_injective m n s t e = ground arith

-- The closing quotation mark is told from every character.
quote-ne-quote_code : (n : ℕ) (s t : List ℕ) → b'"' ∷ s ≡ quote_code n t → ⊥
unfolding quote_code
quote-ne-quote_code n s t e = ground arith

quote_codes_injective : (k l s t : List ℕ) → quote_codes k s ≡ quote_codes l t → (k ≡ l) × (s ≡ t)
unfolding quote_codes
quote_codes_injective [] [] s t e = ground arith
quote_codes_injective [] (n ∷ l) s t e = absurd (quote-ne-quote_code n s (quote_codes l t) e)
quote_codes_injective (m ∷ k) [] s t e = absurd (quote-ne-quote_code m t (quote_codes k s) (sym e))
quote_codes_injective (m ∷ k) (n ∷ l) s t e =
    let (same, rest) = quote_code_injective m n (quote_codes k s) (quote_codes l t) e in
    let (equal, behind) = quote_codes_injective k l s t rest in (cc (same, equal), behind)

stringify_tail_injective : (l m : List String) → stringify_tail l ≡ stringify_tail m → l ≡ m
unfolding stringify_tail
stringify_tail_injective [] [] e = refl
stringify_tail_injective [] (s ∷ m) e = ground arith
stringify_tail_injective (s ∷ l) [] e = ground arith
stringify_tail_injective (s ∷ l) (t ∷ m) e =
    let (same, rest) =
      quote_codes_injective (codes s) (codes t) (stringify_tail l) (stringify_tail m)
        (ground arith) in
    cc (codes_injective s t same, stringify_tail_injective l m rest)

-- Two arrays of strings with the same JSON text are equal.
pub stringify_injective : (l m : List String) → stringify l ≡ stringify m → l ≡ m
unfolding stringify
stringify_injective [] [] e = refl
stringify_injective [] (s ∷ m) e = ground arith
stringify_injective (s ∷ l) [] e = ground arith
stringify_injective (s ∷ l) (t ∷ m) e =
    let (same, rest) =
      quote_codes_injective (codes s) (codes t) (stringify_tail l) (stringify_tail m)
        (ground arith) in
    cc (codes_injective s t same, stringify_tail_injective l m rest)
