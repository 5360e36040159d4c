-- ===== src/CommandLine/Created.antt =====
-- A property of the command that is created, if one is, from the parts of the parser.
use code_push.Common.{
  ◌≡◌, String, Bool, true, false, Bool-cases, inl, inr, Option, none, some, ◌==◌, if◌then◌else◌,
}
use code_push.Parser.{Command, required, ◌>>=◌}

unfoldable pub IsAny : (Command → Type 0) → Option Command → Type 0
IsAny P none = Unit
IsAny P (some command) = P command

module _ (P : Command → Type 0) where
  pub none-IsAny : IsAny P none
  unfolding IsAny
  none-IsAny = tt

  pub some-IsAny : (c : Command) → P c → IsAny P (some c)
  unfolding IsAny
  some-IsAny c h = h

  pub required-IsAny :
      (o : Option String) (k : String → Option Command)
      → ((s : String) → IsAny P (k s))
      → IsAny P (required o >>= k)
  unfolding IsAny
  required-IsAny none k h = tt
  required-IsAny (some s) k h = elim (Bool-cases (s == "")) [
    | inl empty ↦ rw empty tt
    | inr full ↦ rw full (h s)
  ]

  pub if-IsAny :
      (b : Bool) (c d : Option Command) → IsAny P c → IsAny P d → IsAny P (if b then c else d)
  if-IsAny true c d p q = p
  if-IsAny false c d p q = q

  -- The first branch is not taken.
  pub else-IsAny :
      (b : Bool) (c d : Option Command) → b ≡ false → IsAny P d → IsAny P (if b then c else d)
  else-IsAny b c d h q = rw h q

pub ruleset any = (none-IsAny, some-IsAny, required-IsAny, if-IsAny, tt)

-- A command that is created has the property.
pub created-command :
    (P : Command → Type 0) (o : Option Command) (command : Command)
    → IsAny P o
    → o ≡ some command
    → P command
unfolding IsAny
created-command P o command h e = rw (e) at h
