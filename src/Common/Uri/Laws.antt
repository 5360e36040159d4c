-- ===== src/Common/Uri/Laws.antt =====
-- An encoded text holds no separator of a URL, and its bytes can be read back.
use Prim.Native.Char.{code}
use Prim.Native.String.{String, [], ◌∷◌}
use mathlib.Core.List.{List, [], ◌∷◌, append_assoc}
use code_push.Common.{
  ℕ, ◌+◌, ◌-◌, ◌*◌, ◌/◌, ◌%◌, ◌<◌, ◌≡◌, ◌≢◌, refl, ap, sym, ◌∙◌, Bool, true, false, ◌||◌, ◌++◌,
  arith, leb, eqb, if◌then◌else◌, Bool-cases, inl, inr,
}
use code_push.Common.Json.{codes}
use code_push.Common.Utf16.{code_range}
use code_push.Common.Uri.{
  is_unreserved, utf8_code, hex_upper, percent, percent_all, escape_code, escape_codes,
  encode_uri_component,
}

-- A character that a URL component is cut at: "/", "?", "#", "&", "=".
abbrev pub is_separator : ℕ → Bool
is_separator n = eqb n b'/' || eqb n b'?' || eqb n b'#' || eqb n b'&' || eqb n b'='

abbrev pub NoSeparator : List ℕ → Type 0
NoSeparator [] = Unit
NoSeparator (n ∷ l) = (is_separator n ≡ false) × NoSeparator l

hex_upper_not_separator : (k : ℕ) → is_separator (hex_upper k) ≡ false
unfolding hex_upper
hex_upper_not_separator k = ground arith

percent-NoSeparator : (b : ℕ) (rest : List ℕ) → NoSeparator rest → NoSeparator (percent b rest)
unfolding percent
percent-NoSeparator b rest h =
    (refl, (hex_upper_not_separator (b / 16), (hex_upper_not_separator (b % 16), h)))

percent_all-NoSeparator : (bs rest : List ℕ) → NoSeparator rest → NoSeparator (percent_all bs rest)
unfolding percent_all
percent_all-NoSeparator [] rest h = h
percent_all-NoSeparator (b ∷ bs) rest h =
    percent-NoSeparator b _ (percent_all-NoSeparator bs rest h)

unreserved_not_separator : (n : ℕ) → is_unreserved n ≡ true → is_separator n ≡ false
unfolding is_unreserved
unreserved_not_separator n h = ground arith

pub escape_codes-NoSeparator : (l : List ℕ) → NoSeparator (escape_codes l)
unfolding escape_codes
escape_codes-NoSeparator [] = tt
escape_codes-NoSeparator (n ∷ l) = elim (Bool-cases (is_unreserved n)) [
  | inl plain ↦ rw plain (unreserved_not_separator n plain, escape_codes-NoSeparator l)
  | inr other ↦ rw other (percent_all-NoSeparator (utf8_code n) _ (escape_codes-NoSeparator l))
]

hex_value : ℕ → ℕ
hex_value n = if leb n b'9' then n - 48 else n - 55

-- The bytes that a server reads: "%" with two digits is a byte, any other character is itself.
unfoldable pub percent_decode : List ℕ → List ℕ
unfolding hex_value
percent_decode [] = []
percent_decode (n ∷ []) = n ∷ []
percent_decode (n ∷ a ∷ []) = n ∷ a ∷ []
percent_decode (n ∷ a ∷ b ∷ l) =
    let escaped : List ℕ = (hex_value a * 16 + hex_value b) ∷ percent_decode l in
    let plain : List ℕ = n ∷ percent_decode (a ∷ b ∷ l) in if eqb n b'%' then escaped else plain

-- The UTF-8 bytes of a text.
unfoldable pub utf8 : List ℕ → List ℕ
utf8 [] = []
utf8 (n ∷ l) = utf8_code n ++ utf8 l

percent_decode_plain :
    (n : ℕ) (l : List ℕ) → n ≢ b'%' → percent_decode (n ∷ l) ≡ n ∷ percent_decode l
unfolding percent_decode
percent_decode_plain n [] h = refl
percent_decode_plain n (a ∷ []) h = refl
percent_decode_plain n (a ∷ b ∷ l) h = ground arith

percent_decode-percent :
    (b : ℕ) (l : List ℕ) → b < 256 → percent_decode (percent b l) ≡ b ∷ percent_decode l
unfolding percent_decode percent hex_value
percent_decode-percent b l h = ground arith

abbrev AreBytes : List ℕ → Type 0
AreBytes [] = Unit
AreBytes (b ∷ bs) = (b < 256) × AreBytes bs

utf8_code-AreBytes : (n : ℕ) → n < 1114112 → AreBytes (utf8_code n)
unfolding utf8_code
utf8_code-AreBytes n h = ground arith

percent_decode-percent_all :
    (bs l : List ℕ) → AreBytes bs → percent_decode (percent_all bs l) ≡ bs ++ percent_decode l
unfolding percent_all
percent_decode-percent_all [] l h = refl
percent_decode-percent_all (b ∷ bs) l (small, h) =
    percent_decode-percent b (percent_all bs l) small
    ∙ ap (◌∷◌ b) (percent_decode-percent_all bs l h)

unreserved_plain : (n : ℕ) → is_unreserved n ≡ true → (n ≢ b'%') × (utf8_code n ≡ n ∷ [])
unfolding is_unreserved utf8_code
unreserved_plain n h = ground arith

percent_decode-escape_code :
    (n : ℕ) (l : List ℕ)
    → n < 1114112
    → percent_decode (escape_code n l) ≡ utf8_code n ++ percent_decode l
unfolding escape_code
percent_decode-escape_code n l h = elim (Bool-cases (is_unreserved n)) [
  | inl plain ↦
      let (ordinary, single) = unreserved_plain n plain in
      rw (plain, single) (percent_decode_plain n l ordinary)
  | inr other ↦ rw other (percent_decode-percent_all (utf8_code n) l (utf8_code-AreBytes n h))
]

-- A server that decodes an encoded text has the UTF-8 bytes of the text.
pub percent_decode-encode_uri_component :
    (s : String) → percent_decode (encode_uri_component s) ≡ utf8 (codes s)
unfolding escape_codes utf8 percent_decode
percent_decode-encode_uri_component [] = refl
percent_decode-encode_uri_component (c ∷ s) =
    percent_decode-escape_code (code c) (escape_codes (codes s)) (omega (arith, code_range c))
    ∙ ap (◌++◌ (utf8_code (code c))) (percent_decode-encode_uri_component s)

percent_all-append : (bs rest l : List ℕ) → percent_all bs rest ++ l ≡ percent_all bs (rest ++ l)
unfolding percent_all percent
percent_all-append [] rest l = refl
percent_all-append (b ∷ bs) rest l = ap (percent b) (percent_all-append bs rest l)

escape_code-append : (n : ℕ) (rest l : List ℕ) → escape_code n rest ++ l ≡ escape_code n (rest ++ l)
unfolding escape_code
escape_code-append n rest l = elim (Bool-cases (is_unreserved n)) [
  | inl plain ↦ rw plain refl
  | inr other ↦ rw other (percent_all-append (utf8_code n) rest l)
]

-- An encoded text in front of others is decoded by itself.
pub percent_decode-encoded :
    (s : String) (l : List ℕ)
    → percent_decode (encode_uri_component s ++ l) ≡ utf8 (codes s) ++ percent_decode l
unfolding escape_codes utf8
percent_decode-encoded [] l = refl
percent_decode-encoded (c ∷ s) l = rw (escape_code-append (code c) (escape_codes (codes s)) l) (
    percent_decode-escape_code (code c) (escape_codes (codes s) ++ l) (omega (arith, code_range c))
    ∙ (ap (◌++◌ (utf8_code (code c))) (percent_decode-encoded s l)
        ∙ sym (append_assoc (utf8_code (code c)) (utf8 (codes s)) (percent_decode l))))

abbrev pub IsUnescaped : List ℕ → Type 0
IsUnescaped [] = Unit
IsUnescaped (n ∷ l) = (n ≢ b'%') × IsUnescaped l

-- What is not escaped stands for itself.
pub percent_decode-unescaped :
    (k l : List ℕ) → IsUnescaped k → percent_decode (k ++ l) ≡ k ++ percent_decode l
percent_decode-unescaped [] l h = refl
percent_decode-unescaped (n ∷ k) l (plain, h) =
    percent_decode_plain n (k ++ l) plain ∙ ap (◌∷◌ n) (percent_decode-unescaped k l h)
