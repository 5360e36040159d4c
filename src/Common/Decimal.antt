-- ===== src/Common/Decimal.antt =====
-- A number as JavaScript joins it to a text.
use Prim.Native.Char.{Char}
use Prim.Native.String.{String, [], ◌∷◌, ◌++◌}
use code_push.Common.{ℕ, zero, suc, ◌/◌, ◌%◌, ltb, if◌then◌else◌}
use code_push.Common.Text.{drop}

head : String → Char
head [] = "0"
head (c ∷ s) = c

digit : ℕ → String
unfolding head drop
digit n = head (drop n "0123456789") ∷ []

-- The fuel bounds the number of digits.
decimal_from : ℕ → ℕ → String
unfolding digit
decimal_from zero n = digit n
decimal_from (suc fuel) n =
    let longer : String = decimal_from fuel (n / 10) ++ digit (n % 10) in
    if ltb n 10 then digit n else longer

-- `n` has less than `n + 1` digits.
unfoldable pub to_decimal : ℕ → String
unfolding decimal_from
to_decimal n = decimal_from n n
