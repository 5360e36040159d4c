-- ===== src/Management/Sessions.antt =====
-- `getAccessKeys` and `getSessions`: what they make of the server's access keys. A session key
-- belongs to the machine that created it.
pub mod Laws
use code_push.Common.{
  ℕ, String, Bool, true, false, List, [], ◌∷◌, ltb, ◌&&◌, ◌==◌, if◌then◌else◌, Option, none, some,
}
use code_push.Common.Dict

-- `ServerAccessKey`
pub record ServerAccessKey : Type 0 where
  pub created_time : ℕ
  pub expires : ℕ
  pub friendly_name : String
  pub created_by : String
  pub is_session : Bool

-- `AccessKey`, without its secret.
pub record AccessKey : Type 0 where
  pub created_time : ℕ
  pub expires : ℕ
  pub name : String

pub record Session : Type 0 where
  pub logged_in_time : ℕ
  pub machine_name : String

unfoldable pub access_keys_of : List ServerAccessKey → List AccessKey
access_keys_of [] = []
access_keys_of (key ∷ keys) =
    let rest = access_keys_of keys in
    if key.is_session
    then rest
    else record { created_time = key.created_time; expires = key.expires; name = key.friendly_name }
      ∷ rest

-- `sessionMap[name] = session`. The key __proto__ names the prototype of the object, which is none of
-- its own keys.
unfoldable pub assign : String → Session → List (String × Session) → List (String × Session)
assign name session m = if name == "__proto__" then m else Dict.put name session m

-- `sessionMap` after the loop over the keys, from what it was before.
unfoldable pub session_map :
    ℕ → List ServerAccessKey → List (String × Session) → List (String × Session)
unfolding assign
session_map now [] m = m
session_map now (key ∷ keys) m = session_map now keys (
    if key.is_session && ltb now key.expires
    then assign key.created_by
        (record { logged_in_time = key.created_time; machine_name = key.created_by }) m
    else m)

abbrev values : List (String × Session) → List Session
values [] = []
values ((name, session) ∷ m) = session ∷ values m

-- The sessions, in the order of the map. A script engine lists keys that are array indices first.
unfoldable pub sessions_of : ℕ → List ServerAccessKey → List Session
unfolding session_map
sessions_of now keys = values (session_map now keys [])
