-- ===== src/Manifest/Serial/Laws.antt =====
-- A manifest is read back from its text.
use code_push.Common.{ℕ, ◌≡◌, ◌≢◌, refl, ap, String, eq_iff, some, List, [], ◌∷◌, arith}
use code_push.Common.Utf16.{units}
use code_push.Common.JsonParse.{Json, text}
use code_push.Common.JsonParse.Objects.{object_of, parse-stringify_object}
use code_push.Common.Object.{AreNames, IsOther, own-set_all}
use code_push.Manifest.{PackageManifest}
use code_push.Manifest.Serial.{assigned, serialize, deserialize, entries_of, pairs_of}

-- The entries, as they are in an object.
abbrev pub entry_units : List (String × String) → List (List ℕ × List ℕ)
entry_units [] = []
entry_units ((name, hash) ∷ entries) = (units name, units hash) ∷ entry_units entries

abbrev pub texts : List (List ℕ × List ℕ) → List (List ℕ × Json)
texts [] = []
texts ((key, v) ∷ l) = (key, text v) ∷ texts l

-- No file is called __proto__.
abbrev pub HasNoPrototype : List (String × String) → Type 0
HasNoPrototype [] = Unit
HasNoPrototype ((name, hash) ∷ entries) = (name ≢ "__proto__") × HasNoPrototype entries

assigned-eq :
    (entries : List (String × String))
    → HasNoPrototype entries
    → assigned entries ≡ entry_units entries
unfolding assigned
assigned-eq [] h = refl
assigned-eq ((name, hash) ∷ entries) (other, h) =
    let rest = assigned-eq entries h in ground (arith, eq_iff name "__proto__")

texts-IsOther : (key : List ℕ) (l : List (List ℕ × List ℕ)) → IsOther key l → IsOther key (texts l)
texts-IsOther key [] h = tt
texts-IsOther key ((k, v) ∷ l) (e, h) = (e, texts-IsOther key l h)

texts-AreNames : (l : List (List ℕ × List ℕ)) → AreNames l → AreNames (texts l)
texts-AreNames [] h = tt
texts-AreNames ((key, v) ∷ l) (e, (o, h)) = (e, (texts-IsOther key l o, texts-AreNames l h))

pairs_of-object_of : (l : List (List ℕ × List ℕ)) → pairs_of (object_of l) ≡ texts l
unfolding pairs_of
pairs_of-object_of [] = refl
pairs_of-object_of ((key, v) ∷ l) = ap (λ rest. (key, text v) ∷ rest) (pairs_of-object_of l)

entries_of-object_of :
    (l : List (List ℕ × List ℕ)) → AreNames l → entries_of (object_of l) ≡ some (texts l)
unfolding entries_of
entries_of-object_of [] h = refl
entries_of-object_of ((key, v) ∷ l) h =
    rw
      (
        pairs_of-object_of ((key, v) ∷ l),
        own-set_all (texts ((key, v) ∷ l)) (texts-AreNames ((key, v) ∷ l) h),
      )
      refl

-- A manifest that is serialized and deserialized has the same entries in the same order, where its
-- names are different, no name is an array index, and none is __proto__.
pub deserialize-serialize :
    (m : PackageManifest)
    → HasNoPrototype m.entries
    → AreNames (entry_units m.entries)
    → deserialize (serialize m) ≡ some (texts (entry_units m.entries))
unfolding deserialize serialize
deserialize-serialize m h names =
    rw
      (
        assigned-eq m.entries h,
        own-set_all (entry_units m.entries) names,
        parse-stringify_object (entry_units m.entries),
        entries_of-object_of (entry_units m.entries) names,
      )
      refl
