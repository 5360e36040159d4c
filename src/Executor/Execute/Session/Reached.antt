-- ===== src/Executor/Execute/Session/Reached.antt =====
-- Several commands, one after the other, each in a process of its own.
use mathlib.Core.Path.{subst}
use mathlib.Core.Option.{some-injective}
use code_push.Common.{
  ◌≡◌, String, Bool, true, false, Option, none, some, List, [], ◌∷◌, ◌⊎◌, inl, inr,
}
use code_push.Common.Promise.{resolved}
use code_push.Parser.{Command, login, register}
use code_push.Management.{AccountManager}
use code_push.Executor.{Stored, pure, ◌>>◌}
use code_push.Executor.Sdk.{Environment}
use code_push.Executor.Connection.{
  truthy, deserialize_connection_info, serialize_connection_info, file_after,
}
use code_push.Parser.ServerUrl.{trim}
use code_push.Executor.Execute.{gate, handle_with, execute}
use code_push.Executor.Execute.Session.Login.{IsKnown}
use code_push.Executor.Execute.Session.Machine.{
  Step, stays, signs_out, signs_in, SignsIn, execute-Step,
}

-- The connection file after the commands, each in the environment that it meets.
unfoldable pub file_after_all : List (Environment × Command) → Option Stored → Option Stored
unfolding execute file_after
file_after_all [] file = file
file_after_all ((env, command) ∷ calls) file =
    file_after_all calls (file_after (execute env file none command).effects file)

-- A login or a registration among the commands saved the file, with a key that the server knew.
abbrev pub IsSavedBy : Stored → List (Environment × Command) → Type 0
IsSavedBy stored [] = ⊥
IsSavedBy stored ((env, command) ∷ calls) =
    (SignsIn command × IsKnown env stored) ⊎ IsSavedBy stored calls

Step-cases :
    {env : Environment} {command : Command} {file next : Option Stored} (stored : Stored)
    → Step env command file next
    → next ≡ some stored
    → (file ≡ some stored) ⊎ (SignsIn command × IsKnown env stored)
Step-cases stored (stays file) h = inl h
Step-cases stored (signs_out file n) h = cc
Step-cases stored (signs_in saved s known) h =
    inr (s, subst (IsKnown _) (some-injective saved stored h) known)

file_after_all-cases :
    (calls : List (Environment × Command)) (file : Option Stored) (stored : Stored)
    → file_after_all calls file ≡ some stored
    → (file ≡ some stored) ⊎ IsSavedBy stored calls
unfolding file_after_all
file_after_all-cases [] file stored h = inl h
file_after_all-cases ((env, command) ∷ calls) file stored h =
    elim (file_after_all-cases calls _ stored h) [
      | inr later ↦ inr (inr later)
      | inl here ↦ elim (Step-cases stored (execute-Step env file none command) here) [
        | inl before ↦ inl before
        | inr now ↦ inr (inl now)
      ]
    ]

-- A connection file that is there after a series of commands that began without one was saved by a
-- login or a registration among them, with a key that the server knew at that time.
pub file_after_all-IsSavedBy :
    (calls : List (Environment × Command)) (stored : Stored)
    → file_after_all calls none ≡ some stored
    → IsSavedBy stored calls
file_after_all-IsSavedBy calls stored h = elim (file_after_all-cases calls none stored h) [
  | inl never ↦ cc
  | inr saved ↦ saved
]

-- The connection that a login or a registration is to save: of the key that was given, or of the token
-- that was entered, without the white space around it; none where the prompt for it was aborted.
abbrev of_token :
    Environment → Option String → Option String → Option Bool → Option String → Option Stored
of_token env server_url proxy no_proxy none = none
of_token env server_url proxy no_proxy (some token) =
    some (serialize_connection_info (trim token) false server_url proxy no_proxy)

abbrev of_key :
    Environment → Option String → Option String → Option Bool → Option String → Option Stored
of_key env server_url proxy no_proxy none = of_token env server_url proxy no_proxy env.token
of_key env server_url proxy no_proxy (some key) =
    some (serialize_connection_info key true server_url proxy no_proxy)

abbrev pub connection_of : Environment → Command → Option Stored
connection_of env (login server_url access_key proxy no_proxy) =
    of_key env server_url proxy no_proxy (truthy access_key)
connection_of env (register server_url proxy no_proxy) =
    of_token env server_url proxy no_proxy env.token
connection_of env _ = none

-- The file is this connection, and the next command runs with an SDK that is made of it and whose key
-- the server knows; or there is no connection and no file.
abbrev pub Connects : Environment → Command → Option Stored → Option Stored → Type 0
Connects env next connection file =
    (file ≡ connection)
    × ((connection ≡ none)
        ⊎ ((sdk : AccountManager) × (gate env (deserialize_connection_info env file) none next
              ≡ pure (some sdk))
            × (env.key_is_valid sdk false ≡ resolved true)
            × (execute env file none next
                ≡ handle_with env file (deserialize_connection_info env file) sdk next)))
