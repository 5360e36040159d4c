-- ===== src/Common/Dict.antt =====
-- A JavaScript `Map` with string keys: its entries in the order in which the keys were first set.
use code_push.Common.{
  String, Option, none, some, List, [], ◌∷◌, ◌≡◌, refl, ◌==◌, eq_iff, arith, if◌then◌else◌,
}

module _ {ℓ} {V : Type ℓ} where
  -- `map.get(k)`
  unfoldable pub get : String → List (String × V) → Option V
  get k [] = none
  get k ((j, v) ∷ m) = if j == k then some v else get k m

  -- `map.set(k, v)`
  unfoldable pub put : String → V → List (String × V) → List (String × V)
  put k v [] = (k, v) ∷ []
  put k v ((j, w) ∷ m) = if j == k then (k, v) ∷ m else (j, w) ∷ put k v m

  -- Each key has one entry.
  abbrev pub NodupKeys : List (String × V) → Type ℓ
  NodupKeys [] = Unit
  NodupKeys ((k, v) ∷ m) = (get k m ≡ none) × NodupKeys m

  pub get-put :
      (k j : String) (v : V) (m : List (String × V))
      → get j (put k v m) ≡ (if k == j then some v else get j m)
  unfolding get put
  get-put k j v [] = refl
  get-put k j v ((i, w) ∷ m) = ground (arith, eq_iff k j, eq_iff i k, eq_iff i j, get-put k j v m)

  pub put-NodupKeys :
      (k : String) (v : V) (m : List (String × V)) → NodupKeys m → NodupKeys (put k v m)
  unfolding get put
  put-NodupKeys k v [] h = (refl, tt)
  put-NodupKeys k v ((j, w) ∷ m) (fresh, h) =
      ground (arith, eq_iff j k, eq_iff k j, get-put k j v m, put-NodupKeys k v m h)
