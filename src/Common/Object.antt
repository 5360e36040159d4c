-- ===== src/Common/Object.antt =====
-- The own properties of a JavaScript object, by keys that are lists of code units. The keys that are
-- array indices come first, in ascending order, and then the others in the order in which they were
-- set.
use mathlib.Core.List.{append_assoc, append-nil}
use code_push.Common.{
  ℕ, ◌+◌, ◌-◌, ◌*◌, Bool, true, false, ◌&&◌, Option, none, some, List, [], ◌∷◌, ◌++◌, ◌≡◌, refl, ap,
  sym, eqb, ltb, leb, if◌then◌else◌,
}

abbrev pub same : List ℕ → List ℕ → Bool
same [] [] = true
same [] (n ∷ l) = false
same (m ∷ k) [] = false
same (m ∷ k) (n ∷ l) = let rest = same k l in if eqb m n then rest else false

-- The number that the digits are of, behind those that were read.
number : ℕ → List ℕ → Option ℕ
number value [] = some value
number value (n ∷ l) =
    let rest = number (10 * value + (n - b'0')) l in if leb b'0' n && leb n b'9' then rest else none

abbrev below : ℕ → Option ℕ → Option ℕ
below bound none = none
below bound (some n) = if ltb n bound then some n else none

-- An array index is a number below 2 ^ 32 - 1 that does not begin with a needless zero.
unfoldable pub array_index : List ℕ → Option ℕ
unfolding number
array_index [] = none
array_index (n ∷ []) = number 0 (n ∷ [])
array_index (n ∷ m ∷ l) =
    let value = number 0 (n ∷ m ∷ l) in if eqb n b'0' then none else below 4294967295 value

module _ {ℓ} {V : Type ℓ} where
  put : List ℕ → V → List (List ℕ × V) → List (List ℕ × V)
  put key v [] = (key, v) ∷ []
  put key v ((k, w) ∷ l) =
      let rest = put key v l in if same k key then (key, v) ∷ l else (k, w) ∷ rest

  -- An entry of an array index, with its key.
  put_index : ℕ → List ℕ × V → List (ℕ × (List ℕ × V)) → List (ℕ × (List ℕ × V))
  put_index i e [] = (i, e) ∷ []
  put_index i e ((j, f) ∷ l) =
      let rest = put_index i e l in
      if ltb i j then (i, e) ∷ (j, f) ∷ l else if eqb i j then (i, e) ∷ l else (j, f) ∷ rest

  abbrev seconds : List (ℕ × (List ℕ × V)) → List (List ℕ × V)
  seconds [] = []
  seconds ((i, e) ∷ l) = e ∷ seconds l

pub record Object {ℓ} (V : Type ℓ) : Type ℓ where
  pub indexed : List (ℕ × (List ℕ × V))
  pub named : List (List ℕ × V)

module _ {ℓ} {V : Type ℓ} where
  -- `{}`
  abbrev pub empty : Object V
  empty = record { indexed = []; named = [] }

  abbrev placed : Option ℕ → List ℕ → V → Object V → Object V
  unfolding put put_index
  placed none key v object = record { indexed = object.indexed; named = put key v object.named }
  placed (some i) key v object = record {
    indexed = put_index i (key, v) object.indexed;
    named = object.named;
  }

  -- `object[key] = v`
  unfoldable pub set : List ℕ → V → Object V → Object V
  unfolding array_index put put_index
  set key v object = placed (array_index key) key v object

  unfoldable pub set_all : List (List ℕ × V) → Object V → Object V
  unfolding set
  set_all [] object = object
  set_all ((key, v) ∷ l) object = set_all l (set key v object)

  -- The keys of `Object.keys`, with their values.
  unfoldable pub own : Object V → List (List ℕ × V)
  own object = seconds object.indexed ++ object.named

  -- The key is none of these.
  abbrev pub IsFresh : List ℕ → List (List ℕ × V) → Type 0
  IsFresh key [] = Unit
  IsFresh key ((k, v) ∷ l) = (same k key ≡ false) × IsFresh key l

  -- These keys are not the key, which stands in front of them.
  abbrev pub IsOther : List ℕ → List (List ℕ × V) → Type 0
  IsOther key [] = Unit
  IsOther key ((k, v) ∷ l) = (same key k ≡ false) × IsOther key l

  -- No two keys are the same, and none of them is an array index.
  abbrev pub AreNames : List (List ℕ × V) → Type 0
  AreNames [] = Unit
  AreNames ((key, v) ∷ l) = (array_index key ≡ none) × (IsOther key l × AreNames l)

  abbrev AreFresh : List (List ℕ × V) → List (List ℕ × V) → Type 0
  AreFresh acc [] = Unit
  AreFresh acc ((key, v) ∷ l) = IsFresh key acc × AreFresh acc l

  put-IsFresh :
      (key : List ℕ) (v : V) (l : List (List ℕ × V))
      → IsFresh key l
      → put key v l ≡ l ++ ((key, v) ∷ [])
  unfolding put
  put-IsFresh key v [] h = refl
  put-IsFresh key v ((k, w) ∷ l) (e, h) = rw (e, put-IsFresh key v l h) refl

  IsFresh-append :
      (key : List ℕ) (l m : List (List ℕ × V))
      → IsFresh key l
      → IsFresh key m
      → IsFresh key (l ++ m)
  IsFresh-append key [] m h k = k
  IsFresh-append key ((k, w) ∷ l) m (e, h) f = (e, IsFresh-append key l m h f)

  AreFresh-append :
      (key : List ℕ) (v : V) (acc l : List (List ℕ × V))
      → AreFresh acc l
      → IsOther key l
      → AreFresh (acc ++ ((key, v) ∷ [])) l
  AreFresh-append key v acc [] h o = tt
  AreFresh-append key v acc ((k, w) ∷ l) (h, hs) (o, os) =
      (IsFresh-append k acc ((key, v) ∷ []) h (o, tt), AreFresh-append key v acc l hs os)

  set_all-named :
      (l acc : List (List ℕ × V))
      → AreNames l
      → AreFresh acc l
      → set_all l (record { indexed = []; named = acc }) ≡ record { indexed = []; named = acc ++ l }
  unfolding set_all set
  set_all-named [] acc h f =
      ap (λ named. record { indexed = []; named = named }) (sym (append-nil acc))
  set_all-named ((key, v) ∷ l) acc (none_index, (o, h)) (f, fs) =
      let rest = set_all-named l (acc ++ ((key, v) ∷ [])) h (AreFresh-append key v acc l fs o) in
      rw (none_index, put-IsFresh key v acc f, rest, append_assoc) refl

  AreFresh-nil : (l : List (List ℕ × V)) → AreFresh [] l
  AreFresh-nil [] = tt
  AreFresh-nil ((key, v) ∷ l) = (tt, AreFresh-nil l)

  -- The keys of an object are those that were set, in their order, where they are different names.
  pub own-set_all : (l : List (List ℕ × V)) → AreNames l → own (set_all l empty) ≡ l
  unfolding own
  own-set_all l h = rw (set_all-named l [] h (AreFresh-nil l)) refl
