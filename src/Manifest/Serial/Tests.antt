-- ===== src/Manifest/Serial/Tests.antt =====
-- Manifests as texts, at concrete data.
use code_push.Common.{◌≡◌, refl, eq_iff, arith, none, some, [], ◌∷◌}
use code_push.Common.Decimal.{to_decimal}
use code_push.Common.Utf16.{units}
use code_push.Common.Object.{AreNames, array_index}
use code_push.Common.JsonParse.{literal, text, empty_array}
use code_push.Manifest.{PackageManifest}
use code_push.Manifest.Serial.{serialize, deserialize}
use code_push.Manifest.Serial.Laws.{HasNoPrototype, entry_units, texts, deserialize-serialize}

abbrev two_files : PackageManifest
two_files = record { entries = ("a.txt", "0f") ∷ ("b\n\"c\"", "1e") ∷ [] }

two_files-HasNoPrototype : HasNoPrototype two_files.entries
two_files-HasNoPrototype = (
  ground (arith, eq_iff "a.txt" "__proto__"),
  (ground (arith, eq_iff "b\n\"c\"" "__proto__"), tt),
)

two_files-AreNames : AreNames (entry_units two_files.entries)
unfolding units array_index
two_files-AreNames = (refl, ((refl, tt), (refl, (tt, tt))))

deserialize-serialize_example :
    deserialize (serialize two_files) ≡ some (texts (entry_units two_files.entries))
deserialize-serialize_example =
    deserialize-serialize two_files two_files-HasNoPrototype two_files-AreNames

-- The entry of a file __proto__ is lost, and the keys that are numbers come first.
serialize_test :
    serialize (record { entries = ("b", "1") ∷ ("__proto__", "2") ∷ ("10", "3") ∷ ("9", "4") ∷ [] })
    ≡ units "{\"9\":\"4\",\"10\":\"3\",\"b\":\"1\"}"
unfolding serialize units
serialize_test = refl

-- An array is taken for a map from its indices, and null and what is no JSON give no manifest.
deserialize_test :
    (deserialize (units " [ true , \"\\u0041\" ] ")
      ≡ some ((units "0", literal (units "true")) ∷ (units "1", text (units "A")) ∷ []))
    × (deserialize (units "null") ≡ none)
    × (deserialize (units "{\"a\":1,}") ≡ none)
    × (deserialize (units "-1.5e+3") ≡ some [])
    × (deserialize (units "01") ≡ none)
    × (deserialize (units "[[]]") ≡ some ((units "0", empty_array) ∷ []))
unfolding deserialize units to_decimal
deserialize_test = (refl, refl, refl, refl, refl, refl)
