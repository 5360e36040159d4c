-- ===== src/Common/JsonParse/Text.antt =====
-- The texts of JSON.
use code_push.Common.{
  ℕ, zero, suc, ◌+◌, ◌-◌, ◌*◌, ◌&&◌, Option, none, some, List, [], ◌∷◌, ◌++◌, eqb, ltb, leb,
  if◌then◌else◌,
}

-- Where the reader of a text is: in the text, behind a backslash, or in front of `k` more
-- hexadecimal digits.
pub data Place : Type 0 where
  plain escaped : Place
  digits : (k value : ℕ) → Place

pub data Step : Type 0 where
  fails closes : Step
  goes : List ℕ → Place → Step

-- The character for a letter behind a backslash; 0 where there is none.
unfoldable pub unescape : ℕ → ℕ
unescape n =
    if eqb n b'"'
    then b'"'
    else if eqb n b'\\'
    then b'\\'
    else if eqb n b'/'
    then b'/'
    else if eqb n b'b'
    then 8
    else if eqb n b't'
    then 9
    else if eqb n b'n'
    then 10
    else if eqb n b'f'
    then 12
    else if eqb n b'r'
    then 13
    else 0

-- The value of a hexadecimal digit; 16 for the other characters.
unfoldable pub hex_value : ℕ → ℕ
hex_value n =
    if leb b'0' n && leb n b'9'
    then n - b'0'
    else if leb b'a' n && leb n b'f'
    then n - b'a' + 10
    else if leb b'A' n && leb n b'F'
    then n - b'A' + 10
    else 16

unfoldable pub step : Place → ℕ → Step
unfolding unescape hex_value
step plain n =
    if eqb n b'"'
    then closes
    else if eqb n b'\\'
    then goes [] escaped
    else if ltb n 32
    then fails
    else goes (n ∷ []) plain
step escaped n =
    if eqb n b'u'
    then goes [] (digits 3 0)
    else if ltb 0 (unescape n)
    then goes (unescape n ∷ []) plain
    else fails
step (digits zero value) n =
    if ltb (hex_value n) 16 then goes ((16 * value + hex_value n) ∷ []) plain else fails
step (digits (suc k) value) n =
    if ltb (hex_value n) 16 then goes [] (digits k (16 * value + hex_value n)) else fails

abbrev pub prepend : List ℕ → Option (List ℕ × List ℕ) → Option (List ℕ × List ℕ)
prepend out none = none
prepend out (some (l, rest)) = some (out ++ l, rest)

-- A text behind its opening quotation mark, and what is behind the closing one.
unfoldable pub read_text : Place → List ℕ → Option (List ℕ × List ℕ)
unfolding step
read_text place [] = none
read_text place (n ∷ l) = elim (step place n) [
  | fails ↦ none
  | closes ↦ some ([], l)
  | goes out next ↦ prepend out (read_text next l)
]
