-- ===== src/Common/JsonParse.antt =====
-- `JSON.parse`, over the code units of its text.
pub mod Text
pub mod Numbers
pub mod Laws
pub mod Objects
use code_push.Common.{
  ℕ, zero, suc, ◌+◌, ◌-◌, ◌*◌, Bool, true, false, ◌&&◌, ◌||◌, Option, none, some, List, [], ◌∷◌,
  ◌++◌, eqb, ltb, leb, if◌then◌else◌,
}
use code_push.Common.JsonParse.Text.{plain, read_text}
use code_push.Common.JsonParse.Numbers.{start, number_run, part_of, is_number}

-- A value: null, true, false and numbers are literals; the parts of an array and of an object are in
-- their order.
pub data Json : Type 0 where
  literal : List ℕ → Json
  text : List ℕ → Json
  empty_array : Json
  element : Json → Json → Json
  empty_object : Json
  member : (key : List ℕ) → Json → Json → Json

-- The white space of JSON.
unfoldable pub skip : List ℕ → List ℕ
skip [] = []
skip (n ∷ l) =
    let rest = skip l in if eqb n 32 || eqb n 10 || eqb n 13 || eqb n 9 then rest else n ∷ l

-- What stands in front of `prefix`, or nothing where it does not.
after : List ℕ → List ℕ → Option (List ℕ)
after [] l = some l
after (n ∷ prefix) [] = none
after (n ∷ prefix) (m ∷ l) = let rest = after prefix l in if eqb n m then rest else none

abbrev Read : Type 0
Read = Option (Json × List ℕ)

read_number : List ℕ → Read
unfolding number_run part_of
read_number l =
    let (run, rest) = number_run l in
    if is_number (part_of start run) then some (literal run, rest) else none

-- `null`, `true` and `false`
abbrev word : List ℕ → List ℕ → Read → Read
unfolding after
word name l otherwise = elim (after name l) [
  | none ↦ otherwise
  | some rest ↦ some (literal name, rest)
]

read_literal : List ℕ → Read
unfolding read_number after
read_literal l = word (b'n' ∷ b'u' ∷ b'l' ∷ b'l' ∷ []) l (
    word (b't' ∷ b'r' ∷ b'u' ∷ b'e' ∷ []) l
      (word (b'f' ∷ b'a' ∷ b'l' ∷ b's' ∷ b'e' ∷ []) l (read_number l)))

-- What is read: a value, the elements of an array or the members of an object, behind the bracket
-- or behind a comma.
pub data Mode : Type 0 where
  value elements members : Mode

abbrev is_next : ℕ → List ℕ → Option (List ℕ)
is_next n [] = none
is_next n (m ∷ l) = if eqb n m then some l else none

abbrev Reader : Type 0
Reader = Mode → List ℕ → Read

infixl 5 ◌>>=◌
abbrev ◌>>=◌ : {A B : Type 0} → Option A → (A → Option B) → Option B
none >>= k = none
some a >>= k = k a

-- An element or a member that was read, with the others or the closing bracket behind it.
abbrev closed : Reader → Mode → ℕ → Json → (Json → Json) → List ℕ → Read
unfolding skip
closed next mode bracket empty put l = elim (is_next b',' (skip l)) [
  | some rest ↦ next mode rest >>= λ (others, rest). some (put others, rest)
  | none ↦ is_next bracket (skip l) >>= λ rest. some (put empty, rest)
]

abbrev opened : Reader → Mode → ℕ → Json → List ℕ → Read
unfolding skip
opened next mode bracket empty l = elim (is_next bracket (skip l)) [
  | some rest ↦ some (empty, rest)
  | none ↦ next mode l
]

abbrev value_of : Reader → List ℕ → Read
unfolding read_literal read_text skip
value_of next [] = none
value_of next (n ∷ l) =
    if eqb n b'"'
    then (read_text plain l >>= λ (s, rest). some (text s, rest))
    else if eqb n b'['
    then opened next elements b']' empty_array l
    else if eqb n b'{'
    then opened next members b'}' empty_object l
    else read_literal (n ∷ l)

-- One value, element or member, with the reader of those inside it or behind it.
read_one : Reader → Reader
unfolding skip read_text read_literal
read_one next value l = value_of next (skip l)
read_one next elements l = do
  (first, rest) ← next value l
  closed next elements b']' empty_array (element first) rest
read_one next members l = do
  opened_key ← is_next b'"' (skip l)
  (key, rest) ← read_text plain opened_key
  behind_colon ← is_next b':' (skip rest)
  (first, rest) ← next value behind_colon
  closed next members b'}' empty_object (member key first) rest

-- The fuel bounds the number of values, elements and members that are read on a way into the text.
unfoldable pub read_json : ℕ → Reader
unfolding read_one
read_json zero mode l = none
read_json (suc fuel) mode l = read_one (read_json fuel) mode l

abbrev pub length : List ℕ → ℕ
length [] = 0
length (n ∷ l) = length l + 1

abbrev is_empty : List ℕ → Bool
is_empty [] = true
is_empty (n ∷ l) = false

-- Each value, element and member but the first has a character of its own in front of it or in it,
-- and the way to it takes two steps at most for each of these characters.
unfoldable pub parse : List ℕ → Option Json
unfolding read_json skip
parse l = do
  (json, rest) ← read_json (2 * length l + 2) value l
  if is_empty (skip rest) then some json else none
