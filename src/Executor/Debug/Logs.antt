-- ===== src/Executor/Debug/Logs.antt =====
-- When a process is started, and what is shown of a log in parts.
use mathlib.Core.Option.{some-injective}
use Prim.Native.String.{String, ◌∷◌}
use code_push.Common.Lines.{line_feed, split_lines, split_lines-append}
use code_push.Common.Decimal.{to_decimal}
use code_push.Common.Text.{to_lower}
use mathlib.Core.List.{List, ◌++◌}
use code_push.Common.{
  ℕ, ◌≡◌, ◌↔◌, refl, ◌<>◌, Bool, true, false, not, Option, none, some, eqb, ltb, arith,
}
use code_push.Common.Promise.{Done, Failure, error, Promise}
use code_push.Executor.{runs, guard, or_throw, pure, ◌>>=◌, ◌>>◌, doing, settling}
use code_push.Executor.Sdk.{Environment}
use code_push.Executor.Debug.{
  android_log_process, debug_command, get_number_of_available_devices, keep_lines, log_process,
  process_log_data,
}

one_device :
    (p : List String → Promise Done) (process : List String) (n : ℕ) (g h : ℕ → Failure)
    → (do
      command ← (do guard (not (eqb n 0)) (g n); guard (not (ltb 1 n)) (h n); pure process)
      doing (runs command)
      settling (p command)).effects
        ≡ List.◌∷◌ (runs process) List.[]
      ↔ (n ≡ 1)
one_device p process n g h = ground arith

-- Effects of a command on a run that has none, where the run goes on to one process.
starting :
    (p : List String → Promise Done) (process : List String) (valid : Bool) (e : Failure)
    (output : Option String) (f : Failure) (g h : ℕ → Failure)
    → (do
      command ← (do
        guard valid e
        text ← or_throw output f
        guard
            (not (eqb (get_number_of_available_devices text) 0))
            (g (get_number_of_available_devices text))
        guard
            (not (ltb 1 (get_number_of_available_devices text)))
            (h (get_number_of_available_devices text))
        pure process)
      doing (runs command)
      settling (p command)).effects
        ≡ List.◌∷◌ (runs process) List.[]
      ↔ ((valid ≡ true)
          × ((text : String) × (output ≡ some text) × (get_number_of_available_devices text ≡ 1)))
starting p process false e output f g h = (λ k. cc, λ k. cc)
starting p process true e none f g h = (λ k. cc, λ k. cc)
starting p process true e (some text) f g h =
    let count = one_device p process (get_number_of_available_devices text) g h in
    (λ k. (refl, (text, refl, count.0 k)), λ k. count.1 (rw (some-injective _ _ k.1.1) k.1.2))

keep_lines-append :
    (normalize : String → String) (time : String) (k l : List String)
    → keep_lines normalize time (k ++ l)
      ≡ keep_lines normalize time k ++ keep_lines normalize time l
unfolding keep_lines
keep_lines-append normalize time List.[] l = refl
keep_lines-append normalize time (List.◌∷◌ line k) l =
    let rest = keep_lines-append normalize time k l in ground arith

-- The debug command on "android" starts `adb logcat`, and does nothing else, exactly when adb is
-- there and lists exactly one device.
pub debug_command_iff :
    (env : Environment)
    → (debug_command env (some "android")).effects
        ≡ List.◌∷◌ (runs (List.◌∷◌ "adb" (List.◌∷◌ "logcat" List.[]))) List.[]
      ↔ ((env.debug.has_adb ≡ true)
          × ((output : String) × (env.debug.adb_devices ≡ some output)
              × (get_number_of_available_devices output ≡ 1)))
unfolding debug_command log_process android_log_process to_lower
debug_command_iff env =
    let process = List.◌∷◌ "adb" (List.◌∷◌ "logcat" List.[]) in
    starting env.debug.log_ends process env.debug.has_adb _ env.debug.adb_devices _
      (λ n. error "No Android devices found. Re-run this command after starting one.")
      (λ n. error (
        "Found \""
        <> to_decimal n
        <> "\" android devices. Please leave only one device you need to debug."))

-- What is shown of two texts with a line feed between them is what is shown of the first one and then
-- what is shown of the second one.
pub process_log_data-append :
    (normalize : String → String) (time s t : String)
    → process_log_data normalize time (s <> (line_feed ∷ t))
      ≡ process_log_data normalize time s ++ process_log_data normalize time t
unfolding process_log_data
process_log_data-append normalize time s t =
    rw (split_lines-append "" s t)
      (keep_lines-append normalize time (split_lines "" s) (split_lines "" t))
