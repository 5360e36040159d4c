-- ===== src/Common/Double.antt =====
-- Doubles that are not negative, as exact fractions, and the one that is nearest to a quotient, as the
-- division and the multiplication of JavaScript give it. Numbers are taken to be neither too great nor
-- too small for a double.
pub mod Laws
use code_push.Common.{ℕ, zero, suc, ◌+◌, ◌*◌, ◌/◌, ◌%◌, eqb, ltb, leb, if◌then◌else◌}

pub record Double : Type 0 where
  pub numerator : ℕ
  pub denominator : ℕ

-- The whole number that is nearest to p / q, or the even one of two.
unfoldable pub round_even : ℕ → ℕ → ℕ
round_even p q =
    if ltb (2 * (p % q)) q
    then p / q
    else if ltb q (2 * (p % q))
    then p / q + 1
    else p / q + p / q % 2

-- p / q is doubled until it is 2 ^ 52 at least; `d` is what it was multiplied by.
unfoldable pub raise : (fuel : ℕ) → ℕ → ℕ → ℕ → Double
unfolding round_even
raise zero p q d = record { numerator = round_even p q; denominator = d }
raise (suc fuel) p q d =
    let rest = raise fuel (2 * p) q (2 * d) in
    if ltb p (4503599627370496 * q)
    then rest
    else record { numerator = round_even p q; denominator = d }

-- p / q is halved until it is below 2 ^ 53; `d` is what it was divided by.
unfoldable pub lower : (fuel : ℕ) → ℕ → ℕ → ℕ → Double
unfolding round_even
lower zero p q d = record { numerator = round_even p q * d; denominator = 1 }
lower (suc fuel) p q d =
    let rest = lower fuel p (2 * q) (2 * d) in
    if leb (9007199254740992 * q) p
    then rest
    else record { numerator = round_even p q * d; denominator = 1 }

-- The double with 53 binary digits that is nearest to p / q. After 52 + q doublings p is 2 ^ 52 * q at
-- least, and after p halvings it is less than 2 ^ 53 * q.
unfoldable pub nearest : ℕ → ℕ → Double
unfolding raise lower
nearest p q =
    if eqb p 0
    then record { numerator = 0; denominator = 1 }
    else if leb (9007199254740992 * q) p
    then lower p p q 1
    else raise (52 + q) p q 1
