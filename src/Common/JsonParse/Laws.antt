-- ===== src/Common/JsonParse/Laws.antt =====
-- A quoted text is read back, and so are the members of an object.
use code_push.Common.{
  ℕ, ◌+◌, ◌*◌, ◌/◌, ◌%◌, ◌≡◌, refl, true, false, Bool-cases, inl, inr, Option, none, some, List, [],
  ◌∷◌, eqb, ltb, arith,
}
use code_push.Common.Json.{hex_digit, short_escape, quote_code, quote_codes}
use code_push.Common.JsonParse.Text.{plain, goes, unescape, hex_value, step, read_text, prepend}

unescape-short_escape : (n : ℕ) → ltb 0 (short_escape n) ≡ true → unescape (short_escape n) ≡ n
unfolding unescape short_escape
unescape-short_escape n h = ground arith

short_escape-ne-u : (n : ℕ) → eqb (short_escape n) b'u' ≡ false
unfolding short_escape
short_escape-ne-u n = ground arith

hex_value-hex_digit : (k : ℕ) → ltb k 16 ≡ true → hex_value (hex_digit k) ≡ k
unfolding hex_value hex_digit
hex_value-hex_digit k h = ground arith

step-plain :
    (n : ℕ) → ltb 0 (short_escape n) ≡ false → ltb n 32 ≡ false → step plain n ≡ goes (n ∷ []) plain
unfolding step short_escape
step-plain n h k = ground arith

short_escape-positive : (n : ℕ) → ltb 0 (short_escape n) ≡ true → ltb 0 n ≡ true
unfolding short_escape
short_escape-positive n h = ground arith

prepend-nil : (o : Option (List ℕ × List ℕ)) → prepend [] o ≡ o
prepend-nil none = refl
prepend-nil (some (l, rest)) = refl

read_text-short :
    (n : ℕ) (l : List ℕ)
    → ltb 0 (short_escape n) ≡ true
    → read_text plain (b'\\' ∷ short_escape n ∷ l) ≡ prepend (n ∷ []) (read_text plain l)
unfolding read_text step
read_text-short n l h =
    rw (short_escape-ne-u n, unescape-short_escape n h, short_escape-positive n h) (prepend-nil _)

read_text-long :
    (n : ℕ) (l : List ℕ)
    → ltb n 32 ≡ true
    → read_text plain (b'\\' ∷ b'u' ∷ b'0' ∷ b'0' ∷ hex_digit (n / 16) ∷ hex_digit (n % 16) ∷ l)
      ≡ prepend (n ∷ []) (read_text plain l)
unfolding read_text step
read_text-long n l h =
    let high : ltb (n / 16) 16 ≡ true = ground arith in
    let low : ltb (n % 16) 16 ≡ true = ground arith in
    let sum : 16 * (0 + n / 16) + n % 16 ≡ n = omega arith in
    rw (hex_value-hex_digit (n / 16) high, high, hex_value-hex_digit (n % 16) low, low, sum)
      (simp prepend-nil)

read_text-plain :
    (n : ℕ) (l : List ℕ)
    → ltb 0 (short_escape n) ≡ false
    → ltb n 32 ≡ false
    → read_text plain (n ∷ l) ≡ prepend (n ∷ []) (read_text plain l)
unfolding read_text
read_text-plain n l long other = rw (read_text, step-plain n long other) refl

read_text-quote_code :
    (n : ℕ) (l : List ℕ) → read_text plain (quote_code n l) ≡ prepend (n ∷ []) (read_text plain l)
unfolding quote_code
read_text-quote_code n l = elim (Bool-cases (ltb 0 (short_escape n))) [
  | inl short ↦ rw (short) (read_text-short n l short)
  | inr long ↦ elim (Bool-cases (ltb n 32)) [
    | inl control ↦ rw (long, control) (read_text-long n l control)
    | inr other ↦ rw (long, other) (read_text-plain n l long other)
  ]
]

-- A text that is quoted is read back, up to its closing quotation mark.
pub read_text-quote_codes :
    (k rest : List ℕ) → read_text plain (quote_codes k rest) ≡ some (k, rest)
unfolding quote_codes read_text
read_text-quote_codes [] rest = refl
read_text-quote_codes (n ∷ k) rest =
    rw (read_text-quote_code n (quote_codes k rest), read_text-quote_codes k rest) refl
