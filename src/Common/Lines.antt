-- ===== src/Common/Lines.antt =====
-- A text as its lines, and the lines as a text.
use Prim.Native.Char.{Char, code}
use Prim.Native.String.{String, [], ◌∷◌}
use text.Mathlib.TextLemmas.{nil-append, cons-append, append-nil, append_assoc}
use mathlib.Core.List.{List, map, ◌++◌}
use code_push.Common.{inl, inr, ◌≡◌, refl, ◌<>◌, Bool, true, false, Bool-cases, eqb, if◌then◌else◌}

abbrev pub line_feed : Char
line_feed = "\n"

-- The parts between the line feeds, of which the first begins with `line`.
unfoldable pub split_lines : String → String → List String
split_lines line [] = List.◌∷◌ line List.[]
split_lines line (c ∷ s) =
    let next = split_lines "" s in
    let more = split_lines (line <> (c ∷ [])) s in
    if eqb (code c) 10 then List.◌∷◌ line next else more

-- `join("\n")`
unfoldable pub join_lines : List String → String
join_lines List.[] = ""
join_lines (List.◌∷◌ line List.[]) = line
join_lines (List.◌∷◌ line (List.◌∷◌ next lines)) =
    line <> (line_feed ∷ join_lines (List.◌∷◌ next lines))

if-append :
    (b : Bool) (line : String) (k l m : List String)
    → (if b then List.◌∷◌ line (k ++ m) else l ++ m) ≡ (if b then List.◌∷◌ line k else l) ++ m
if-append true line k l m = refl
if-append false line k l m = refl

-- The lines of two texts with a line feed between them.
pub split_lines-append :
    (line s t : String)
    → split_lines line (s <> (line_feed ∷ t)) ≡ split_lines line s ++ split_lines "" t
unfolding split_lines
split_lines-append line [] t = rw (nil-append (line_feed ∷ t)) refl
split_lines-append line (c ∷ s) t =
    let next = split_lines-append "" s t in
    let more = split_lines-append (line <> (c ∷ [])) s t in
    rw (cons-append c s (line_feed ∷ t), next, more) (if-append (eqb (code c) 10) line _ _ _)

-- There is no line feed in it.
abbrev pub IsLine : String → Type 0
IsLine [] = Unit
IsLine (c ∷ s) = (eqb (code c) 10 ≡ false) × IsLine s

pub IsLine-append : (s t : String) → IsLine s → IsLine t → IsLine (s <> t)
IsLine-append [] t p q = rw (nil-append t) q
IsLine-append (c ∷ s) t (p, ps) q = rw (cons-append c s t) (p, IsLine-append s t ps q)

abbrev pub AreLines : List String → Type 0
AreLines List.[] = Unit
AreLines (List.◌∷◌ line lines) = IsLine line × AreLines lines

split_lines-IsLine :
    (line s : String) → IsLine s → split_lines line s ≡ List.◌∷◌ (line <> s) List.[]
unfolding split_lines
split_lines-IsLine line [] h = rw (append-nil line) refl
split_lines-IsLine line (c ∷ s) (p, ps) =
    let rest = split_lines-IsLine (line <> (c ∷ [])) s ps in
    rw (p, rest, append_assoc line (c ∷ []) s, cons-append c [] s, nil-append s) refl

pub split_lines-AreLines : (line s : String) → IsLine line → AreLines (split_lines line s)
unfolding split_lines
split_lines-AreLines line [] h = (h, tt)
split_lines-AreLines line (c ∷ s) h = elim (Bool-cases (eqb (code c) 10)) [
  | inl e ↦ rw (e) (h, split_lines-AreLines "" s tt)
  | inr e ↦
      rw (e) (split_lines-AreLines (line <> (c ∷ [])) s (IsLine-append line (c ∷ []) h (e, tt)))
]

-- Lines that are joined are split again.
pub split_lines-join_lines :
    (line : String) (lines : List String)
    → AreLines (List.◌∷◌ line lines)
    → split_lines "" (join_lines (List.◌∷◌ line lines)) ≡ List.◌∷◌ line lines
unfolding join_lines
split_lines-join_lines line List.[] (h, hs) =
    rw (split_lines-IsLine "" line h, nil-append line) refl
split_lines-join_lines line (List.◌∷◌ next lines) (h, hs) =
    let rest = split_lines-join_lines next lines hs in
    rw
      (
        split_lines-append "" line (join_lines (List.◌∷◌ next lines)),
        split_lines-IsLine "" line h,
        nil-append line,
        rest,
      )
      refl

AreLines-map :
    (f : String → String) (lines : List String)
    → ((line : String) → IsLine line → IsLine (f line))
    → AreLines lines
    → AreLines (map f lines)
AreLines-map f List.[] h a = tt
AreLines-map f (List.◌∷◌ line lines) h (a, rest) = (h line a, AreLines-map f lines h rest)

abbrev IsSome : List String → Type 0
IsSome List.[] = ⊥
IsSome (List.◌∷◌ line lines) = Unit

split_lines-IsSome : (line s : String) → IsSome (split_lines line s)
unfolding split_lines
split_lines-IsSome line [] = tt
split_lines-IsSome line (c ∷ s) =
    let rest = split_lines-IsSome (line <> (c ∷ [])) s in
    elim (Bool-cases (eqb (code c) 10)) [ inl e ↦ rw (e) tt | inr e ↦ rw (e) rest ]

-- A function on lines changes the lines of a text.
pub split_lines-map :
    (f : String → String) (s : String)
    → ((line : String) → IsLine line → IsLine (f line))
    → split_lines "" (join_lines (map f (split_lines "" s))) ≡ map f (split_lines "" s)
split_lines-map f s h =
    go (split_lines "" s) (split_lines-IsSome "" s) (split_lines-AreLines "" s tt)
  where
    go :
        (lines : List String)
        → IsSome lines
        → AreLines lines
        → split_lines "" (join_lines (map f lines)) ≡ map f lines
    go List.[] some_line a = absurd some_line
    go (List.◌∷◌ line lines) some_line a =
        split_lines-join_lines (f line) (map f lines) (AreLines-map f (List.◌∷◌ line lines) h a)
