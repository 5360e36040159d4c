-- ===== src/Executor/Prompt.antt =====
-- `confirm`, `requestAccessKey`, and the checks of arguments that throw.
use code_push.Common.{◌<>◌, String, Bool, false, Option, none, some, ◌==◌, ◌||◌, if◌then◌else◌}
use code_push.Common.Promise.{Done, done, error, Promise, resolved, pending}
use code_push.Common.Text.{to_lower}
use code_push.Parser.ServerUrl.{trim}
use code_push.Management.{AccountManager, Operation}
use code_push.Executor.{Run, pure, settling, guard, ◌>>=◌}
use code_push.Executor.Sdk.{Environment, call}

-- The handler of the prompt in `confirm`. It reads a field of the result: where the prompt was
-- aborted this is an error that is thrown in a callback and that nothing catches. The promise never
-- settles, and the program is ended by that error.
unfoldable pub confirm : Option (Option String) → Promise Bool
unfolding to_lower
confirm none = pending
confirm (some none) = resolved false
confirm (some (some response)) = resolved (to_lower response == "y")

-- `confirm().then(...)`, with a call of the SDK where the user agreed.
unfoldable pub confirmed : Environment → AccountManager → Operation → Run Done
unfolding call confirm
confirmed env sdk operation = do
  was_confirmed ← settling (confirm env.answer)
  if was_confirmed then call env sdk operation else pure done

-- `requestAccessKey`: null where the prompt was aborted.
unfoldable pub request_access_key : Environment → Option String
unfolding trim
request_access_key env = elim env.token [ none ↦ none | some token ↦ some (trim token) ]

unfoldable pub throw_for_invalid_email : Environment → String → Run Done
throw_for_invalid_email env email =
    guard (env.valid_email email) (error ("\"" <> email <> "\" is an invalid e-mail address."))

unfoldable pub throw_for_invalid_semver_range : Environment → Option String → Run Done
throw_for_invalid_semver_range env range = guard (env.valid_range range) (
    error (
      "Please use a semver-compliant target binary version range, for example \"1.0.0\", \"*\" "
      <> "or \"^1.2.3\"."))

abbrev format_text : Option String → String
format_text none = "undefined"
format_text (some format) = format

unfoldable pub throw_for_invalid_output_format : Option String → Run Done
throw_for_invalid_output_format format =
    guard (format_text format == "json" || format_text format == "table")
      (error ("Invalid format:  " <> format_text format <> "."))
