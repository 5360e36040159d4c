-- ===== src/Management/Sessions/Laws.antt =====
-- Which machines have a session.
use code_push.Common.{
  not, ℕ, ◌≡◌, refl, ◌+◌, ◌∙◌, String, Bool, false, none, List, [], ◌∷◌, ltb, ◌&&◌, ◌||◌, ◌==◌,
  eq_iff, arith, if◌then◌else◌, is_some, Bool-cases, inl, inr,
}
use code_push.Common.Dict
use code_push.Common.Dict.{get-put, put-NodupKeys, NodupKeys}
use code_push.Management.Sessions.{
  assign, ServerAccessKey, Session, session_map, values, sessions_of,
}

-- The keys have a session key of the machine that has not expired.
pub has_session : ℕ → String → List ServerAccessKey → Bool
has_session now name [] = false
has_session now name (key ∷ keys) =
    (key.is_session && ltb now key.expires && key.created_by == name) || has_session now name keys

-- How many sessions name the machine.
pub count_sessions : String → List Session → ℕ
count_sessions name [] = 0
count_sessions name (session ∷ sessions) =
    let rest = count_sessions name sessions in
    if session.machine_name == name then rest + 1 else rest

-- A session stands under the name of its machine, and each machine has one session.
abbrev IsSessionMap : List (String × Session) → Type 0
IsSessionMap [] = Unit
IsSessionMap ((name, session) ∷ m) =
    (session.machine_name ≡ name) × (Dict.get name m ≡ none) × IsSessionMap m

put-IsSessionMap :
    (session : Session) (m : List (String × Session))
    → IsSessionMap m
    → IsSessionMap (Dict.put session.machine_name session m)
unfolding Dict.put Dict.get
put-IsSessionMap session [] h = (refl, refl, tt)
put-IsSessionMap session ((name, other) ∷ m) (same, fresh, h) = ground (
  arith,
  eq_iff name session.machine_name,
  eq_iff session.machine_name name,
  get-put session.machine_name name session m,
  put-IsSessionMap session m h,
)

assign-IsSessionMap :
    (session : Session) (m : List (String × Session))
    → IsSessionMap m
    → IsSessionMap (assign session.machine_name session m)
unfolding assign
assign-IsSessionMap session m h = elim (Bool-cases (session.machine_name == "__proto__")) [
  | inl prototype ↦ rw prototype h
  | inr own ↦ rw own (put-IsSessionMap session m h)
]

get-assign :
    (name key : String) (session : Session) (m : List (String × Session))
    → is_some (Dict.get name (assign key session m))
      ≡ ((key == name && not (name == "__proto__")) || is_some (Dict.get name m))
unfolding assign Dict.get
get-assign name key session m = elim (Bool-cases (key == "__proto__")) [
  | inl prototype ↦
      rw prototype
        (ground (arith, eq_iff key "__proto__", eq_iff key name, eq_iff name "__proto__"))
  | inr own ↦
      rw (own, get-put key name session m)
        (ground (arith, eq_iff key "__proto__", eq_iff key name, eq_iff name "__proto__"))
]

session_map-IsSessionMap :
    (now : ℕ) (keys : List ServerAccessKey) (m : List (String × Session))
    → IsSessionMap m
    → IsSessionMap (session_map now keys m)
unfolding session_map
session_map-IsSessionMap now [] m h = h
session_map-IsSessionMap now (key ∷ keys) m h =
    elim (Bool-cases (key.is_session && ltb now key.expires)) [
      | inl live ↦ rw live (session_map-IsSessionMap now keys _ (assign-IsSessionMap _ m h))
      | inr other ↦ rw other (session_map-IsSessionMap now keys m h)
    ]

get-session_map :
    (now : ℕ) (name : String) (keys : List ServerAccessKey) (m : List (String × Session))
    → is_some (Dict.get name (session_map now keys m))
      ≡ ((has_session now name keys && not (name == "__proto__")) || is_some (Dict.get name m))
unfolding session_map has_session
get-session_map now name [] m = refl
get-session_map now name (key ∷ keys) m =
    elim (Bool-cases (key.is_session && ltb now key.expires)) [
      | inl live ↦
          rw (live, get-session_map now name keys, get-assign name key.created_by) (ground arith)
      | inr other ↦ rw (other, get-session_map now name keys m) (ground arith)
    ]

count_sessions-values :
    (name : String) (m : List (String × Session))
    → IsSessionMap m
    → count_sessions name (values m) ≡ (if is_some (Dict.get name m) then 1 else 0)
unfolding count_sessions Dict.get
count_sessions-values name [] h = refl
count_sessions-values name ((other, session) ∷ m) (same, fresh, h) =
    ground
      (arith, eq_iff other name, eq_iff session.machine_name name, count_sessions-values name m h)

-- A machine has one session if it created a session key that has not expired, however many such
-- keys there are, and none otherwise; but a machine with the name __proto__ has none at all.
pub count_sessions-sessions_of :
    (now : ℕ) (name : String) (keys : List ServerAccessKey)
    → count_sessions name (sessions_of now keys)
      ≡ (if has_session now name keys && not (name == "__proto__") then 1 else 0)
unfolding sessions_of Dict.get
count_sessions-sessions_of now name keys =
    count_sessions-values name _ (session_map-IsSessionMap now keys [] tt)
    ∙ rw (get-session_map now name keys []) (ground arith)
