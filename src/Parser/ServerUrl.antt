-- ===== src/Parser/ServerUrl.antt =====
-- `getServerUrl`.
use Prim.Native.Char.{code}
use Prim.Native.String.{String, [], ◌∷◌}
use code_push.Common.{
  ℕ, ◌<>◌, Bool, ◌&&◌, ◌||◌, Option, none, some, ◌==◌, leb, eqb, if◌then◌else◌, is_truthy,
}
use code_push.Common.Text.{has_prefix, drop}

-- The characters that `trim` removes.
is_blank : ℕ → Bool
is_blank n =
    (leb 9 n && leb n 13)
    || eqb n 32
    || eqb n 160
    || eqb n 5760
    || (leb 8192 n && leb n 8202)
    || eqb n 8232
    || eqb n 8233
    || eqb n 8239
    || eqb n 8287
    || eqb n 12288
    || eqb n 65279

trim_start : String → String
unfolding is_blank
trim_start [] = []
trim_start (c ∷ s) = if is_blank (code c) then trim_start s else c ∷ s

-- What is left of a text with a character in front of it, where trailing blanks are removed.
trim_end : String → String
unfolding is_blank
trim_end [] = []
trim_end (c ∷ s) = let rest = trim_end s in if is_blank (code c) && rest == "" then [] else c ∷ rest

unfoldable pub trim : String → String
unfolding trim_start trim_end
trim s = trim_end (trim_start s)

-- A slash at the end is removed: `url.substring(0, url.length - 1)`.
unfoldable pub without_trailing_slash : String → String
without_trailing_slash [] = []
without_trailing_slash (c ∷ s) =
    let rest = without_trailing_slash s in if eqb (code c) b'/' && s == "" then [] else c ∷ rest

-- `url.replace(/^(https?):\\/, "$1://")`
unfoldable pub repair_scheme : String → String
unfolding has_prefix drop
repair_scheme url =
    if has_prefix "http:\\" url
    then "http://" <> drop 6 url
    else if has_prefix "https:\\" url
    then "https://" <> drop 7 url
    else url

unfoldable pub get_server_url : Option String → Option String
unfolding trim without_trailing_slash repair_scheme
get_server_url none = none
get_server_url (some url) =
    if is_truthy url then some (repair_scheme (without_trailing_slash (trim url))) else none
