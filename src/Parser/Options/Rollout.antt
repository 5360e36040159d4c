-- ===== src/Parser/Options/Rollout.antt =====
-- Rollout percentages: what the check accepts and what its values are.
use mathlib.Core.List.{List, [], ◌∷◌}
use code_push.Common.{
  ℕ, zero, suc, ◌≤◌, ◌≡◌, ◌⊎◌, ◌==◌, refl, ◌<>◌, String, Bool, true, false, ◌&&◌, Option, none,
  some, eq_iff, arith, eqb, Bool-cases, Option-cases, inl, inr,
}
use code_push.Common.Json.{codes}
use code_push.Common.Decimal.{to_decimal}
use code_push.Parser.Options.{
  rollout_percentage, is_valid_rollout, parse_int_from, parse_int, without_percent,
  get_rollout_value,
}

-- The number that the text stands for.
abbrev amount : List ℕ → ℕ
amount l = parse_int_from 0 (without_percent l)

abbrev IsPercentage : List ℕ → Type 0
IsPercentage l =
    (parse_int (without_percent l) ≡ some (amount l)) × (1 ≤ amount l) × (amount l ≤ 100)

rollout_percentage-IsPercentage : (l : List ℕ) → rollout_percentage l ≡ true → IsPercentage l
unfolding rollout_percentage parse_int without_percent
rollout_percentage-IsPercentage [] h = ground arith
rollout_percentage-IsPercentage (a ∷ []) h = ground arith
rollout_percentage-IsPercentage (a ∷ b ∷ []) h = ground arith
rollout_percentage-IsPercentage (a ∷ b ∷ c ∷ []) h = ground arith
rollout_percentage-IsPercentage (a ∷ b ∷ c ∷ d ∷ []) h = ground arith
rollout_percentage-IsPercentage (a ∷ b ∷ c ∷ d ∷ e ∷ l) h = ground arith

-- A rollout option that passes the check is empty and has no value, or its value is a number from 1
-- to 100.
pub get_rollout_value_bounds :
    (rollout : String)
    → is_valid_rollout (some rollout) ≡ true
    → ((rollout ≡ "") × (get_rollout_value (some rollout) ≡ none))
      ⊎ ((n : ℕ) × (get_rollout_value (some rollout) ≡ some n) × (1 ≤ n) × (n ≤ 100))
unfolding get_rollout_value is_valid_rollout
get_rollout_value_bounds rollout valid = elim (Bool-cases (rollout == "")) [
  | inl empty ↦ inl ((eq_iff rollout "").0 empty, rw empty refl)
  | inr full ↦
      let (value, low, high) = rollout_percentage-IsPercentage (codes rollout) (ground arith) in
      inr (amount (codes rollout), ground arith, low, high)
]

abbrev has_value : Option ℕ → ℕ → Bool
has_value none n = false
has_value (some m) n = eqb m n

-- The text passes the check and its value is the number.
abbrev reads_as : String → ℕ → Bool
reads_as rollout n =
    is_valid_rollout (some rollout) && has_value (get_rollout_value (some rollout)) n

all_from_one : ℕ → (ℕ → Bool) → Bool
all_from_one zero p = true
all_from_one (suc n) p = p (suc n) && all_from_one n p

all_from_one_sound :
    (n : ℕ) (p : ℕ → Bool) (x : ℕ) → all_from_one n p ≡ true → 1 ≤ x → x ≤ n → p x ≡ true
unfolding all_from_one
all_from_one_sound zero p x h low high = absurd (omega arith)
all_from_one_sound (suc n) p x h low high = elim (Bool-cases (eqb x (suc n))) [
  | inl last ↦ let same : x ≡ suc n = ground arith in rw same (ground arith)
  | inr other ↦ all_from_one_sound n p x (ground arith) low (ground arith)
]

reads_as-true :
    (rollout : String) (n : ℕ)
    → reads_as rollout n ≡ true
    → (is_valid_rollout (some rollout) ≡ true) × (get_rollout_value (some rollout) ≡ some n)
reads_as-true rollout n h = elim (Option-cases (get_rollout_value (some rollout))) [
  | inl missing ↦ ground arith
  | inr (m, is_m) ↦ ground arith
]

percentages :
    all_from_one 100 (λ n. reads_as (to_decimal n) n && reads_as (to_decimal n <> "%") n) ≡ true
unfolding all_from_one is_valid_rollout get_rollout_value rollout_percentage to_decimal
percentages = refl

-- Every number from 1 to 100, with or without a percent sign, passes the check and is its value.
pub get_rollout_value-to_decimal :
    (n : ℕ)
    → 1 ≤ n
    → n ≤ 100
    → (is_valid_rollout (some (to_decimal n)) ≡ true)
      × (get_rollout_value (some (to_decimal n)) ≡ some n)
      × (is_valid_rollout (some (to_decimal n <> "%")) ≡ true)
      × (get_rollout_value (some (to_decimal n <> "%")) ≡ some n)
get_rollout_value-to_decimal n low high =
    let both : reads_as (to_decimal n) n && reads_as (to_decimal n <> "%") n ≡ true =
      all_from_one_sound 100 _ n percentages low high in
    let plain = reads_as-true (to_decimal n) n (ground arith) in
    let percent = reads_as-true (to_decimal n <> "%") n (ground arith) in
    (plain.0, plain.1, percent.0, percent.1)
