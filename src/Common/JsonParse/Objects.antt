-- ===== src/Common/JsonParse/Objects.antt =====
-- An object whose values are texts is read back.
use code_push.Common.{ℕ, zero, suc, ◌+◌, ◌*◌, ◌≤◌, ◌≡◌, refl, some, List, [], ◌∷◌, arith}
use code_push.Common.Json.{
  quote_code, quote_codes, member_codes, stringify_members, stringify_object,
}
use code_push.Common.JsonParse.{
  Json, text, empty_object, member, skip, read_one, read_json, value, members, length, parse,
}
use code_push.Common.JsonParse.Laws.{read_text-quote_codes}

-- The object that is read.
abbrev pub object_of : List (List ℕ × List ℕ) → Json
object_of [] = empty_object
object_of ((key, v) ∷ l) = member key (text v) (object_of l)

abbrev count : List (List ℕ × List ℕ) → ℕ
count [] = 0
count (e ∷ l) = count l + 1

read_members :
    (key v : List ℕ) (l : List (List ℕ × List ℕ)) (fuel : ℕ)
    → count l + 2 ≤ fuel
    → read_json fuel members (member_codes key v (stringify_members l))
      ≡ some (object_of ((key, v) ∷ l), [])
unfolding read_json read_one skip stringify_members member_codes
read_members key v l zero h = absurd (omega arith)
read_members key v l (suc zero) h = absurd (omega arith)
read_members key v [] (suc (suc fuel)) h =
    rw (read_text-quote_codes key, read_text-quote_codes v) refl
read_members key v ((k, w) ∷ l) (suc (suc fuel)) h =
    let rest = read_members k w l (suc fuel) (omega arith) in
    rw (read_text-quote_codes key, read_text-quote_codes v, rest) refl

quote_code-length : (n : ℕ) (l : List ℕ) → length l + 1 ≤ length (quote_code n l)
unfolding quote_code
quote_code-length n l = ground arith

quote_codes-length : (k rest : List ℕ) → length rest + 1 ≤ length (quote_codes k rest)
unfolding quote_codes
quote_codes-length [] rest = omega arith
quote_codes-length (n ∷ k) rest =
    omega (arith, quote_code-length n (quote_codes k rest), quote_codes-length k rest)

member_codes-length : (key v rest : List ℕ) → length rest + 5 ≤ length (member_codes key v rest)
unfolding member_codes
member_codes-length key v rest =
    omega
      (arith, quote_codes-length v rest, quote_codes-length key (b':' ∷ b'"' ∷ quote_codes v rest))

stringify_members-length : (l : List (List ℕ × List ℕ)) → count l + 1 ≤ length (stringify_members l)
unfolding stringify_members
stringify_members-length [] = omega arith
stringify_members-length ((key, v) ∷ l) =
    omega (arith, member_codes-length key v (stringify_members l), stringify_members-length l)

read_object :
    (key v : List ℕ) (l : List (List ℕ × List ℕ)) (fuel : ℕ)
    → count l + 3 ≤ fuel
    → read_json fuel value (b'{' ∷ member_codes key v (stringify_members l))
      ≡ some (object_of ((key, v) ∷ l), [])
unfolding read_json read_one skip stringify_members member_codes
read_object key v l zero h = absurd (omega arith)
read_object key v l (suc fuel) h = read_members key v l fuel (omega arith)

-- The text of an object whose values are texts is parsed to this object.
pub parse-stringify_object :
    (l : List (List ℕ × List ℕ)) → parse (stringify_object l) ≡ some (object_of l)
unfolding parse stringify_object
parse-stringify_object [] = refl
parse-stringify_object ((key, v) ∷ l) =
    let whole =
      read_object key v l (2 * length (b'{' ∷ member_codes key v (stringify_members l)) + 2) (
        omega
          (arith, member_codes-length key v (stringify_members l), stringify_members-length l)) in
    rw (whole) refl
