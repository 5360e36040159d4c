-- ===== src/Common/Uri.antt =====
-- `encodeURIComponent`, as the list of the code points of its result, and what a server reads from
-- such a text.
pub mod Laws
use code_push.Common.{
  ℕ, ◌+◌, ◌-◌, ◌*◌, ◌/◌, ◌%◌, ◌<◌, ◌≡◌, ◌≢◌, refl, ap, String, Bool, true, false, ◌&&◌, ◌||◌, List,
  [], ◌∷◌, ◌++◌, arith, ltb, leb, eqb, if◌then◌else◌, Bool-cases, inl, inr,
}
use code_push.Common.Json.{codes}

-- The characters that are not escaped.
unfoldable pub is_unreserved : ℕ → Bool
is_unreserved n =
    (leb b'a' n && leb n b'z')
    || (leb b'A' n && leb n b'Z')
    || (leb b'0' n && leb n b'9')
    || eqb n b'-'
    || eqb n b'_'
    || eqb n b'.'
    || eqb n b'!'
    || eqb n b'~'
    || eqb n b'*'
    || eqb n b'\''
    || eqb n b'('
    || eqb n b')'

-- The bytes of a code point in UTF-8.
unfoldable pub utf8_code : ℕ → List ℕ
utf8_code n =
    if ltb n 128
    then n ∷ []
    else if ltb n 2048
    then (192 + n / 64) ∷ (128 + n % 64) ∷ []
    else if ltb n 65536
    then (224 + n / 4096) ∷ (128 + n / 64 % 64) ∷ (128 + n % 64) ∷ []
    else (240 + n / 262144) ∷ (128 + n / 4096 % 64) ∷ (128 + n / 64 % 64) ∷ (128 + n % 64) ∷ []

-- A hexadecimal digit, in upper case.
hex_upper : ℕ → ℕ
hex_upper k = if ltb k 10 then 48 + k else 55 + k

-- "%" and the two digits of a byte, in front of the rest.
percent : ℕ → List ℕ → List ℕ
unfolding hex_upper
percent b rest = b'%' ∷ hex_upper (b / 16) ∷ hex_upper (b % 16) ∷ rest

percent_all : List ℕ → List ℕ → List ℕ
unfolding percent
percent_all [] rest = rest
percent_all (b ∷ bs) rest = percent b (percent_all bs rest)

escape_code : ℕ → List ℕ → List ℕ
unfolding is_unreserved utf8_code percent_all
escape_code n rest = if is_unreserved n then n ∷ rest else percent_all (utf8_code n) rest

unfoldable pub escape_codes : List ℕ → List ℕ
unfolding escape_code
escape_codes [] = []
escape_codes (n ∷ l) = escape_code n (escape_codes l)

-- `encodeURIComponent(s)`
abbrev pub encode_uri_component : String → List ℕ
encode_uri_component s = escape_codes (codes s)
