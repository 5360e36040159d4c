-- ===== src/Common/Precision/Laws.antt =====
-- Numbers from ten to a hundred, with two digits.
use native.Mathlib.Nat.{div-lt_iff_lt-mul, le-div_iff_mul-le, div-mul-le_self, lt-div-mul-add}
use code_push.Common.{
  ℕ, zero, suc, ◌+◌, ◌*◌, ◌/◌, ◌≤◌, ◌<◌, ◌≡◌, refl, true, false, eqb, leb, ltb, arith,
}
use code_push.Common.Decimal.{to_decimal}
use code_push.Common.Precision.{up, mantissa, rounded, shown, pointed, large, to_precision}

eqb-eq_false : (a b : ℕ) → b < a → eqb a b ≡ false
eqb-eq_false a b h = ground arith

ltb-eq_true : (a b : ℕ) → a < b → ltb a b ≡ true
ltb-eq_true a b h = ground arith

ltb-eq_false : (a b : ℕ) → b ≤ a → ltb a b ≡ false
ltb-eq_false a b h = ground arith

leb-eq_true : (a b : ℕ) → a ≤ b → leb a b ≡ true
leb-eq_true a b h = ground arith

leb-eq_false : (a b : ℕ) → b < a → leb a b ≡ false
leb-eq_false a b h = ground arith

-- One division by ten.
to_precision-eq-rounded :
    (p q : ℕ)
    → 0 < q
    → 10 * q ≤ p
    → p < 100 * q
    → to_precision p q ≡ rounded (up 1) (mantissa p (10 * q))
unfolding to_precision large
to_precision-eq-rounded zero q h low high = absurd (omega arith)
to_precision-eq-rounded (suc zero) q h low high = absurd (omega arith)
to_precision-eq-rounded (suc (suc p)) q h low high =
    rw
      (
        eqb-eq_false (suc (suc p)) 0 (omega arith),
        leb-eq_true q (suc (suc p)) (omega arith),
        leb-eq_true (10 * q) (suc (suc p)) low,
        leb-eq_false (10 * (10 * q)) (suc (suc p)) (omega arith),
      )
      refl

mantissa-lt : (p q : ℕ) → 0 < q → 2 * p < 199 * q → mantissa p (10 * q) < 100
unfolding mantissa
mantissa-lt p q h k = (div-lt_iff_lt-mul (omega arith)).1 (omega arith)

-- Below ninety-nine and a half there are two digits, those of the nearest number.
pub to_precision_two_digits :
    (p q : ℕ)
    → 10 * q ≤ p
    → 2 * p < 199 * q
    → (n : ℕ) × (to_precision p q ≡ to_decimal n)
      × (n < 100)
      × (2 * (n * q) ≤ 2 * p + q)
      × (2 * p < 2 * (n * q) + q)
unfolding rounded shown mantissa
to_precision_two_digits p q low high =
    let n : ℕ = (20 * p + 10 * q) / (2 * (10 * q)) in
    let below = div-mul-le_self (20 * p + 10 * q) (2 * (10 * q)) in
    let above = lt-div-mul-add {a = 20 * p + 10 * q} {b = 2 * (10 * q)} (omega arith) in
    (
      n,
      rw
          (
            to_precision-eq-rounded p q (omega arith) low (omega arith),
            ltb-eq_true n 100 (mantissa-lt p q (omega arith) high),
          )
          refl,
      mantissa-lt p q (omega arith) high,
      omega arith,
      omega arith,
    )

-- From ninety-nine and a half on they are rounded up to a number of three digits, which is written
-- with an exponent.
pub to_precision_exponent : (p q : ℕ) → 199 * q ≤ 2 * p → p < 100 * q → to_precision p q ≡ "1.0e+2"
unfolding rounded shown mantissa pointed to_decimal
to_precision_exponent p q low high =
    let n : ℕ = (20 * p + 10 * q) / (2 * (10 * q)) in
    let large : 100 ≤ n = (le-div_iff_mul-le (omega arith)).1 (omega arith) in
    rw (to_precision-eq-rounded p q (omega arith) (omega arith) high, ltb-eq_false n 100 large) refl
