-- ===== src/Manifest/Serial.antt =====
-- `serialize` and `deserialize` of `PackageManifest`, over the code units of the text.
pub mod Laws
mod Tests
use code_push.Common.{
  ℕ, ◌+◌, String, ◌==◌, Bool, Option, none, some, List, [], ◌∷◌, map, if◌then◌else◌,
}
use code_push.Common.Decimal.{to_decimal}
use code_push.Common.Utf16.{units}
use code_push.Common.Json.{stringify_object}
use code_push.Common.JsonParse.{
  Json, literal, text, empty_array, element, empty_object, member, parse,
}
use code_push.Common.Object.{Object, empty, set, set_all, own, same}
use code_push.Manifest.{PackageManifest}

-- `obj[key] = value` for the entries of the map. The key __proto__ names the prototype of the object,
-- and a text is none: the assignment has no effect.
unfoldable assigned : List (String × String) → List (List ℕ × List ℕ)
unfolding units
assigned [] = []
assigned ((name, hash) ∷ entries) =
    let rest = assigned entries in
    if name == "__proto__" then rest else (units name, units hash) ∷ rest

-- `serialize`
unfoldable pub serialize : PackageManifest → List ℕ
unfolding assigned stringify_object set_all own
serialize m = stringify_object (own (set_all (assigned m.entries) empty))

-- The members of an object, in the order of the text.
unfoldable pairs_of : Json → List (List ℕ × Json)
pairs_of (member key v rest) = (key, v) ∷ pairs_of rest
pairs_of _ = []

-- The elements of an array, with their indices.
elements_from : ℕ → Json → List (List ℕ × Json)
unfolding units to_decimal
elements_from i (element v rest) = (units (to_decimal i), v) ∷ elements_from (i + 1) rest
elements_from i _ = []

units_from : ℕ → List ℕ → List (List ℕ × Json)
unfolding units to_decimal
units_from i [] = []
units_from i (n ∷ l) = (units (to_decimal i), text (n ∷ [])) ∷ units_from (i + 1) l

-- The keys of `Object.keys(obj)` with their values; of null it throws.
unfoldable entries_of : Json → Option (List (List ℕ × Json))
unfolding pairs_of elements_from units_from set_all own
entries_of (literal l) = if same l (b'n' ∷ b'u' ∷ b'l' ∷ b'l' ∷ []) then none else some []
entries_of (text l) = some (units_from 0 l)
entries_of (member key v rest) = some (own (set_all (pairs_of (member key v rest)) empty))
entries_of empty_object = some []
entries_of json = some (elements_from 0 json)

abbrev entries_of_parsed : Option Json → Option (List (List ℕ × Json))
unfolding entries_of
entries_of_parsed none = none
entries_of_parsed (some json) = entries_of json

-- `deserialize`: the entries of the map, whose values are not checked to be texts. Where something
-- throws there is no manifest.
unfoldable pub deserialize : List ℕ → Option (List (List ℕ × Json))
unfolding parse entries_of
deserialize serialized_contents = entries_of_parsed (parse serialized_contents)
