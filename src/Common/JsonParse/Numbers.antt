-- ===== src/Common/JsonParse/Numbers.antt =====
-- The numbers of JSON.
use code_push.Common.{ℕ, Bool, true, false, ◌&&◌, ◌||◌, List, [], ◌∷◌, eqb, leb, if◌then◌else◌}

-- The grammar of numbers, by the place behind a part of one.
pub data Part : Type 0 where
  start minus leading_zero integer point fraction exponent sign power wrong : Part

unfoldable pub is_digit : ℕ → Bool
is_digit n = leb b'0' n && leb n b'9'

abbrev pub behind : Part → ℕ → Part
unfolding is_digit
behind start n =
    if eqb n b'-'
    then minus
    else if eqb n b'0'
    then leading_zero
    else if is_digit n
    then integer
    else wrong
behind minus n = if eqb n b'0' then leading_zero else if is_digit n then integer else wrong
behind leading_zero n =
    if eqb n b'.' then point else if eqb n b'e' || eqb n b'E' then exponent else wrong
behind integer n =
    if is_digit n
    then integer
    else if eqb n b'.'
    then point
    else if eqb n b'e' || eqb n b'E'
    then exponent
    else wrong
behind point n = if is_digit n then fraction else wrong
behind fraction n =
    if is_digit n then fraction else if eqb n b'e' || eqb n b'E' then exponent else wrong
behind exponent n = if is_digit n then power else if eqb n b'+' || eqb n b'-' then sign else wrong
behind sign n = if is_digit n then power else wrong
behind power n = if is_digit n then power else wrong
behind wrong n = wrong

abbrev pub is_number : Part → Bool
is_number leading_zero = true
is_number integer = true
is_number fraction = true
is_number power = true
is_number _ = false

-- The longest run of characters that numbers are made of, and what is behind it.
abbrev pub of_number : ℕ → Bool
unfolding is_digit
of_number n = is_digit n || eqb n b'-' || eqb n b'+' || eqb n b'.' || eqb n b'e' || eqb n b'E'

unfoldable pub number_run : List ℕ → List ℕ × List ℕ
unfolding is_digit
number_run [] = ([], [])
number_run (n ∷ l) =
    let (run, rest) = number_run l in if of_number n then (n ∷ run, rest) else ([], n ∷ l)

unfoldable pub part_of : Part → List ℕ → Part
unfolding is_digit
part_of part [] = part
part_of part (n ∷ l) = part_of (behind part n) l
