-- ===== src/Parser/Options.antt =====
-- The values of options: rollout percentages, server URLs.
pub mod Rollout
use Prim.Native.Char.{Char, code}
use Prim.Native.String.{String, [], ◌∷◌}
use mathlib.Core.List.{List, [], ◌∷◌, reverse}
use code_push.Common.{
  ℕ, ◌+◌, ◌-◌, ◌*◌, Bool, true, false, ◌&&◌, ◌||◌, Option, none, some, ◌==◌, leb, eqb,
  if◌then◌else◌, not, is_truthy,
}
use code_push.Common.Json.{codes}
use code_push.Common.Text.{replace_first}

abbrev is_digit : ℕ → Bool
is_digit n = leb b'0' n && leb n b'9'

-- `%?$`
percent_end : List ℕ → Bool
percent_end [] = true
percent_end (c ∷ []) = eqb c b'%'
percent_end (c ∷ d ∷ l) = false

abbrev one_digit : ℕ → Bool
one_digit c = leb b'1' c && leb c b'9'

-- The alternatives of `^(100|[1-9][0-9]|[1-9])%?$`.
matches_hundred : List ℕ → Bool
unfolding percent_end
matches_hundred (a ∷ b ∷ c ∷ l) = eqb a b'1' && eqb b b'0' && eqb c b'0' && percent_end l
matches_hundred _ = false

matches_two : List ℕ → Bool
unfolding percent_end
matches_two (a ∷ b ∷ l) = one_digit a && is_digit b && percent_end l
matches_two _ = false

matches_one : List ℕ → Bool
unfolding percent_end
matches_one (a ∷ l) = one_digit a && percent_end l
matches_one _ = false

-- `ROLLOUT_PERCENTAGE_REGEX.test`
unfoldable pub rollout_percentage : List ℕ → Bool
unfolding matches_hundred matches_two matches_one
rollout_percentage l = matches_hundred l || matches_two l || matches_one l

-- `isValidRollout`
unfoldable pub is_valid_rollout : Option String → Bool
is_valid_rollout none = true
is_valid_rollout (some rollout) =
    not (is_truthy rollout && not (rollout_percentage (codes rollout)))

-- `checkValidReleaseOptions`
unfoldable pub check_valid_release_options : Option String → Option String → Bool
unfolding is_valid_rollout
check_valid_release_options rollout none = false
check_valid_release_options rollout (some deployment_name) =
    is_valid_rollout rollout && is_truthy deployment_name

-- `parseInt`, on a text that begins with a digit: the number that the leading digits make.
parse_int_from : ℕ → List ℕ → ℕ
parse_int_from n [] = n
parse_int_from n (c ∷ l) =
    let more = parse_int_from (n * 10 + (c - b'0')) l in if is_digit c then more else n

-- No leading digit makes NaN, which is `none` here.
unfoldable pub parse_int : List ℕ → Option ℕ
unfolding parse_int_from
parse_int [] = none
parse_int (c ∷ l) = if is_digit c then some (parse_int_from 0 (c ∷ l)) else none

-- The first "%" of a text is removed.
unfoldable pub without_percent : List ℕ → List ℕ
without_percent [] = []
without_percent (c ∷ l) = if eqb c b'%' then l else c ∷ without_percent l

-- `getRolloutValue`; a missing or empty option has the value null.
unfoldable pub get_rollout_value : Option String → Option ℕ
unfolding parse_int without_percent
get_rollout_value none = none
get_rollout_value (some input) =
    if is_truthy input then parse_int (without_percent (codes input)) else none
