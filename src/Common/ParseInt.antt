-- ===== src/Common/ParseInt.antt =====
-- `parseInt(s)` of JavaScript, with a number that is exact. Of the white space in front only the
-- characters of ASCII and the no-break space are skipped.
use Prim.Native.Char.{code}
use Prim.Native.String.{String, [], ◌∷◌}
use mathlib.Core.List.{List}
use code_push.Common.{
  ℕ, zero, suc, ◌+◌, ◌-◌, ◌*◌, Bool, Option, none, some, eqb, leb, ltb, ◌||◌, ◌&&◌, if◌then◌else◌,
}
use code_push.Common.Integer.{ℤ, pos, negsuc}

-- The value of a digit, of a base up to 16.
abbrev digit_value : ℕ → Option ℕ
digit_value n =
    if leb b'0' n && leb n b'9'
    then some (n - b'0')
    else if leb b'a' n && leb n b'f'
    then some (n - b'a' + 10)
    else if leb b'A' n && leb n b'F'
    then some (n - b'A' + 10)
    else none

abbrev keep : ℕ → Option ℕ → List ℕ → List ℕ
keep base none rest = List.[]
keep base (some d) rest = if ltb d base then List.◌∷◌ d rest else List.[]

-- The digits that a text begins with.
unfoldable digits : ℕ → String → List ℕ
digits base [] = List.[]
digits base (c ∷ s) = let rest = digits base s in keep base (digit_value (code c)) rest

value : ℕ → ℕ → List ℕ → ℕ
value base n List.[] = n
value base n (List.◌∷◌ d l) = value base (base * n + d) l

-- NaN is `none`.
abbrev number : ℕ → List ℕ → Option ℕ
unfolding value
number base List.[] = none
number base (List.◌∷◌ d l) = some (value base d l)

-- The number behind the sign: hexadecimal behind 0x.
abbrev unsigned : String → Option ℕ
unfolding digits value
unsigned (zero_digit ∷ x ∷ s) =
    if eqb (code zero_digit) b'0' && (eqb (code x) b'x' || eqb (code x) b'X')
    then number 16 (digits 16 s)
    else number 10 (digits 10 (zero_digit ∷ x ∷ s))
unsigned s = number 10 (digits 10 s)

abbrev minus : Option ℕ → Option ℤ
minus none = none
minus (some zero) = some (pos zero)
minus (some (suc n)) = some (negsuc n)

abbrev plus : Option ℕ → Option ℤ
plus none = none
plus (some n) = some (pos n)

abbrev is_space : ℕ → Bool
is_space n = (leb 9 n && leb n 13) || eqb n 32 || eqb n 160

unfoldable pub parse_int : String → Option ℤ
unfolding digits value
parse_int [] = none
parse_int (c ∷ s) =
    let rest = parse_int s in
    if is_space (code c)
    then rest
    else if eqb (code c) b'-'
    then minus (unsigned s)
    else if eqb (code c) b'+'
    then plus (unsigned s)
    else plus (unsigned (c ∷ s))
