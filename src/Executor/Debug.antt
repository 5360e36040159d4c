-- ===== src/Executor/Debug.antt =====
-- cli/script/commands/debug.ts: the process whose logs are shown, and what of a log is shown.
pub mod Logs
use Prim.Native.Char.{code}
use Prim.Native.String.{String, [], ◌∷◌}
use mathlib.Core.List
use mathlib.Core.List.{List, filter}
use code_push.Common.{
  ℕ, ◌<>◌, ◌+◌, Bool, true, false, Option, none, some, ◌==◌, ◌||◌, ◌&&◌, not, eqb, leb, ltb,
  is_some, map, if◌then◌else◌,
}
use code_push.Common.Lines.{split_lines}
use code_push.Common.Text.{to_lower, index_of, take, drop, length}
use code_push.Common.Promise.{Done, done, Failure, error}
use code_push.Common.Decimal.{to_decimal}
use code_push.Executor.{Run, pure, throwing, settling, guard, or_throw, doing, runs, ◌>>=◌, ◌>>◌}
use code_push.Executor.Sdk.{Environment}
use code_push.Executor.Deployments.{no_value}

-- `\w`
abbrev is_word_char : ℕ → Bool
is_word_char n =
    (leb b'a' n && leb n b'z')
    || (leb b'A' n && leb n b'Z')
    || (leb b'0' n && leb n b'9')
    || eqb n b'_'

abbrev one_if : Bool → ℕ
one_if true = 1
one_if false = 0

-- The words of a text that are the given one; `word` is the part of a word that stands in front.
count_words : String → String → String → ℕ
count_words w word [] = one_if (word == w)
count_words w word (c ∷ s) =
    let inside = count_words w (word <> (c ∷ [])) s in
    let outside = count_words w "" s in
    if is_word_char (code c) then inside else one_if (word == w) + outside

-- `getNumberOfAvailableDevices`: the matches of `/\b(device)\b/mig`.
unfoldable pub get_number_of_available_devices : String → ℕ
unfolding count_words to_lower
get_number_of_available_devices output = count_words "device" "" (to_lower output)

-- `AndroidDebugPlatform.normalizeLogMessage`
unfoldable pub normalize_log_message : String → String
unfolding index_of take
normalize_log_message message = elim (index_of "\", source: file:///" message) [
  | none ↦ message
  | some index ↦ take index message
]

abbrev log_message_prefix : String
log_message_prefix = "[CodePush] "

-- `line.substring(line.indexOf(prefix) + prefix.length)`; the index is -1 where there is none.
unfoldable pub without_log_prefix : String → String
unfolding index_of drop
without_log_prefix line = elim (index_of log_message_prefix line) [
  | none ↦ drop 10 line
  | some index ↦ drop (index + 11) line
]

keep_lines : (String → String) → String → List String → List String
unfolding without_log_prefix index_of
keep_lines normalize time List.[] = List.[]
keep_lines normalize time (List.◌∷◌ line lines) =
    let rest = keep_lines normalize time lines in
    if is_some (index_of log_message_prefix line)
    then List.◌∷◌ ("[" <> time <> "] " <> without_log_prefix (normalize line)) rest
    else rest

-- `processLogData`: the lines that are shown.
unfoldable pub process_log_data : (String → String) → String → String → List String
unfolding keep_lines split_lines
process_log_data normalize time content = keep_lines normalize time (split_lines "" content)

-- `AndroidDebugPlatform.getLogProcess`: the process that is started.
unfoldable pub android_log_process : Environment → Run (List String)
unfolding get_number_of_available_devices
android_log_process env = do
  guard env.debug.has_adb
      (error "ADB command not found. Please ensure it is installed and available on your path.")
  output ← or_throw env.debug.adb_devices (error "Command failed: adb devices")
  let devices = get_number_of_available_devices output
  guard (not (eqb devices 0))
      (error "No Android devices found. Re-run this command after starting one.")
  guard (not (ltb 1 devices)) (
      error (
        "Found \""
        <> to_decimal devices
        <> "\" android devices. Please leave only one device you need to debug."))
  pure (List.◌∷◌ "adb" (List.◌∷◌ "logcat" List.[]))

abbrev first : List String → Option String
first List.[] = none
first (List.◌∷◌ s l) = some s

unfoldable pub ios_log_process : Environment → Run (List String)
ios_log_process env = do
  guard env.debug.is_darwin (error "iOS debug logs can only be viewed on OS X.")
  simulator ←
      or_throw (first env.debug.booted_simulators)
        (error "No iOS simulators found. Re-run this command after starting one.")
  let path = env.join (
      List.◌∷◌ env.debug.home (
        List.◌∷◌ "Library/Logs/CoreSimulator" (List.◌∷◌ simulator (List.◌∷◌ "system.log" List.[]))))
  pure (List.◌∷◌ "tail" (List.◌∷◌ "-f" (List.◌∷◌ path List.[])))

-- `debugPlatforms[platform].getLogProcess()`; an inherited property of the object has no such
-- method.
unfoldable pub log_process : Environment → String → Run (List String)
unfolding android_log_process ios_log_process
log_process env platform =
    if platform == "android"
    then android_log_process env
    else if platform == "ios"
    then ios_log_process env
    else if platform == "constructor" || platform == "__proto__"
    then throwing (error "debugPlatform.getLogProcess is not a function")
    else throwing (
        error (
          "\"" <> platform <> "\" is an unsupported platform. Available options are android, ios."))

unfoldable pub debug_command : Environment → Option String → Run Done
unfolding log_process to_lower
debug_command env platform = do
  platform ← or_throw platform no_value
  command ← log_process env (to_lower platform)
  doing (runs command)
  settling (env.debug.log_ends command)
