-- ===== src/Common/Precision.antt =====
-- `(p / q).toPrecision(2)`, for a number that is the exact fraction, and not negative.
pub mod Laws
use code_push.Common.{ℕ, zero, suc, ◌+◌, ◌*◌, ◌/◌, ◌%◌, String, ◌<>◌, eqb, ltb, leb, if◌then◌else◌}
use code_push.Common.Decimal.{to_decimal}

-- The exponent of ten: `up k` is k, and `down k` is -(k + 1).
pub data Exponent : Type 0 where
  up down : ℕ → Exponent

abbrev next : Exponent → Exponent
next (up k) = up (k + 1)
next (down zero) = up 0
next (down (suc k)) = down k

zeros : ℕ → String
zeros zero = ""
zeros (suc k) = "0" <> zeros k

-- One digit before the point and one behind it.
unfoldable pointed : ℕ → String
pointed n = to_decimal (n / 10) <> "." <> to_decimal (n % 10)

-- The text of two digits `n` with the exponent of the first one.
unfoldable shown : Exponent → ℕ → String
unfolding pointed zeros
shown (up zero) n = pointed n
shown (up (suc zero)) n = to_decimal n
shown (up (suc (suc k))) n = pointed n <> "e+" <> to_decimal (k + 2)
shown (down k) n =
    if ltb k 6 then "0." <> zeros k <> to_decimal n else pointed n <> "e-" <> to_decimal (k + 1)

-- The first two digits of p / q, where q ≤ p < 10 q, as a number from 10 to 100; a tie is rounded up.
unfoldable mantissa : ℕ → ℕ → ℕ
mantissa p q = (20 * p + q) / (2 * q)

-- Where the digits were rounded up to 100, they are 10 with the next exponent.
unfoldable rounded : Exponent → ℕ → String
unfolding shown
rounded e n = if ltb n 100 then shown e n else shown (next e) 10

-- p / q with q ≤ p, divided by ten until one digit stands before the point.
unfoldable large : (fuel : ℕ) → (exponent : ℕ) → ℕ → ℕ → String
unfolding rounded mantissa
large zero k p q = rounded (up k) (mantissa p q)
large (suc fuel) k p q =
    let rest = large fuel (k + 1) p (10 * q) in
    if leb (10 * q) p then rest else rounded (up k) (mantissa p q)

-- 10 p / q with p < q, multiplied by ten until one digit stands before the point.
unfoldable small : (fuel : ℕ) → (exponent : ℕ) → ℕ → ℕ → String
unfolding rounded mantissa
small zero k p q = rounded (down k) (mantissa p q)
small (suc fuel) k p q =
    let rest = small fuel (k + 1) (10 * p) q in
    if ltb p q then rest else rounded (down k) (mantissa p q)

-- Each step makes the divisor greater by one at least, up to p, or the dividend, up to q.
unfoldable pub to_precision : ℕ → ℕ → String
unfolding large small
to_precision p q =
    if eqb p 0 then "0.0" else if leb q p then large p 0 p q else small q 0 (10 * p) q
