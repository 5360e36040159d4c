-- ===== src/Executor/Tables.antt =====
-- command-executor.ts: what the commands print of lists. A table is what is handed to the library
-- cli-table. The metrics of a package have all of their counts, as the server sends them, and no
-- number is negative.
pub mod Texts
pub mod Metrics
pub mod Lists
pub mod History
pub mod Shown
pub mod Laws
pub mod Percent
use code_push.Common.{ℕ, ◌==◌, String, Option, none, some, List, ltb, eqb, if◌then◌else◌}
use code_push.Common.Integer.{ℤ, abs}

pub data Style : Type 0 where
  green magenta red dim : Style

-- The time, the library moment with the difference of two times in days and the texts of a time,
-- chalk, wordwrap, and `toLocaleString`, which follows the locale.
pub record Display : Type 0 where
  pub now : ℕ
  pub difference_in_days : ℕ → ℕ → ℤ
  pub from_now : ℕ → String
  pub year : ℕ → ℕ
  pub format : String → ℕ → String
  pub chalk : Style → String → String
  pub wordwrap : ℕ → String → String
  pub to_locale_string : ℕ → String

-- The argument of `log`: an object as its JSON text, or a table.
pub data Printed (A : Type 0) : Type 0 where
  nothing : Printed A
  json : A → Printed A
  table : (headers : List String) → (rows : List (List String)) → Printed A

-- `format === "json"` and `format === "table"`
abbrev pub printed : {A : Type 0} → Option String → A → List String → List (List String) → Printed A
printed none a headers rows = nothing
printed (some format) a headers rows =
    if format == "json" then json a else if format == "table" then table headers rows else nothing

-- `formatDate`
unfoldable pub format_date : Display → ℕ → String
format_date env date =
    if ltb (abs (env.difference_in_days env.now date)) 30
    then env.from_now date
    else if eqb (env.year env.now) (env.year date)
    then env.format "MMM D" date
    else env.format "MMM D, YYYY" date
