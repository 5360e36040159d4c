-- ===== src/CommandLine/Laws.antt =====
-- A process shows the help once, or runs a command and ends.
use code_push.Common.{
  Bool-cases, ℕ, ◌+◌, ◌≡◌, ◌≢◌, ◌⊎◌, inl, inr, refl, String, Bool, true, false, Option, none, some,
  List, [], ◌∷◌, ◌++◌, if◌then◌else◌, arith,
}
use code_push.Common.Promise.{Done, Promise, resolved, rejected, pending}
use code_push.Parser.{Argv, Command, arg, ◌>>=◌}
use code_push.Parser.Create.{Libraries, create_category, create_command}
use code_push.Executor.{Stored}
use code_push.Executor.Sdk.{Environment}
use code_push.Executor.Execute.{execute}
use code_push.Executor.Execute.Settling.{execute-IsSettled}
use code_push.Executor.Good.{IsReliable, IsSettled}
use code_push.CommandLine.{
  Screen, line, notice, usage, Terminal, Help, show_help, on_failures, root_description, ends,
  waits, ending_of, Process, run, process,
}

-- How often the usage is on the screen.
abbrev pub count_usage : List Screen → ℕ
count_usage [] = 0
count_usage (line s ∷ screens) = count_usage screens
count_usage (notice ∷ screens) = count_usage screens
count_usage (usage ∷ screens) = count_usage screens + 1

count_usage-append : (k l : List Screen) → count_usage (k ++ l) ≡ count_usage k + count_usage l
count_usage-append [] l = ground arith
count_usage-append (line s ∷ k) l = count_usage-append k l
count_usage-append (notice ∷ k) l = count_usage-append k l
count_usage-append (usage ∷ k) l = let rest = count_usage-append k l in ground arith

-- The usage was shown once if the help was, and not at all otherwise.
abbrev IsOnce : Help → Type 0
IsOnce help = count_usage help.screens ≡ (if help.was_help_shown then 1 else 0)

abbrev description : Terminal → Bool → List Screen
description terminal root = if root then root_description terminal else []

count_usage-description :
    (terminal : Terminal) (root : Bool) → count_usage (description terminal root) ≡ 0
count_usage-description terminal false = refl
count_usage-description terminal true = go terminal.has_update
  where
    go : (b : Bool) → count_usage (if b then notice ∷ [] else []) ≡ 0
    go true = refl
    go false = refl

show_help-IsOnce :
    (terminal : Terminal) (root : Bool) (help : Help)
    → IsOnce help
    → IsOnce (show_help terminal root help)
unfolding show_help
show_help-IsOnce terminal root help h = elim (Bool-cases help.was_help_shown) [
  | inl e ↦ rw (e) (rw (e) at h)
  | inr e ↦ rw (e) (
      ground (
        arith,
        h,
        count_usage-append (help.screens ++ description terminal root) (usage ∷ []),
        count_usage-append help.screens (description terminal root),
        count_usage-description terminal root,
      ))
]

on_failures-IsOnce :
    (terminal : Terminal) (failures : List Bool) (help : Help)
    → IsOnce help
    → IsOnce (on_failures terminal failures help)
unfolding on_failures
on_failures-IsOnce terminal [] help h = h
on_failures-IsOnce terminal (root ∷ failures) help h =
    on_failures-IsOnce terminal failures _ (show_help-IsOnce terminal root help h)

-- After `showHelp` the help was shown.
show_help-eq_true :
    (terminal : Terminal) (root : Bool) (help : Help)
    → (show_help terminal root help).was_help_shown ≡ true
unfolding show_help
show_help-eq_true terminal root help = ground arith

create_command-eq-none : (lib : Libraries) (argv : Argv) → create_command lib true argv ≡ none
unfolding create_command arg
create_command-eq-none lib argv = go (arg 0 argv)
  where
    go :
        (o : Option String)
        → (o >>= λ category. if true then none else create_category lib category argv) ≡ none
    go none = refl
    go (some s) = refl

-- What a process does with a command line: it shows the usage once, does nothing and ends, or it
-- shows no usage and runs the command that is created of the arguments.
abbrev pub ShowsHelpOrRuns : Libraries → Environment → Option Stored → Argv → Process → Type 0
ShowsHelpOrRuns lib env file argv p =
    ((count_usage p.screens ≡ 1) × (p.effects ≡ []) × (p.ending ≡ ends))
    ⊎ ((command : Command) × (create_command lib false argv ≡ some command)
        × (count_usage p.screens ≡ 0)
        × (p.effects ≡ (execute env file none command).effects)
        × (p.ending ≡ ending_of (execute env file none command).result))

run-cases :
    (lib : Libraries) (terminal : Terminal) (env : Environment) (file : Option Stored) (argv : Argv)
    (help : Help) (command : Option Command)
    → IsOnce help
    → create_command lib help.was_help_shown argv ≡ command
    → ShowsHelpOrRuns lib env file argv (run terminal env file help command)
unfolding run
run-cases lib terminal env file argv help none h e =
    let once = show_help-IsOnce terminal false help h in
    inl (rw (show_help-eq_true terminal false help) at once, refl, refl)
run-cases lib terminal env file argv help (some command) h e =
    elim (Bool-cases help.was_help_shown) [
      | inl shown ↦ let never = create_command-eq-none lib argv in let same = rw (shown) at e in cc
      | inr hidden ↦ inr (command, rw (hidden) at e, rw (hidden) at h, refl, refl)
    ]

-- Every process shows the usage once, does nothing and ends, or it shows no usage and runs the
-- command that is created of the arguments, whatever yargs refuses.
pub process-ShowsHelpOrRuns :
    (lib : Libraries) (terminal : Terminal) (env : Environment) (file : Option Stored)
    (failures : List Bool) (argv : Argv)
    → ShowsHelpOrRuns lib env file argv (process lib terminal env file failures argv)
unfolding process
process-ShowsHelpOrRuns lib terminal env file failures argv =
    run-cases lib terminal env file argv (on_failures terminal failures _) _
      (on_failures-IsOnce terminal failures _ refl) refl

ending-ne-waits : (p : Promise Done) → IsSettled p → ending_of p ≢ waits
ending-ne-waits (resolved d) h = cc
ending-ne-waits (rejected e) h = cc
ending-ne-waits pending h = absurd h

-- Where all that a process waits for settles, the process ends.
pub process-ends :
    (lib : Libraries) (terminal : Terminal) (env : Environment) (file : Option Stored)
    (failures : List Bool) (argv : Argv)
    → IsReliable env
    → (process lib terminal env file failures argv).ending ≢ waits
process-ends lib terminal env file failures argv r =
    elim (process-ShowsHelpOrRuns lib terminal env file failures argv) [
      | inl (once, nothing, e) ↦ cc
      | inr (command, created, none_shown, effects, e) ↦
          let settled = execute-IsSettled env file none command r in
          rw (e) (ending-ne-waits _ settled)
    ]
