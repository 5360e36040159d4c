-- ===== src/Acquisition/Query.antt =====
-- `queryStringify`: the loop over the properties of an object. A value is a text, or missing.
pub mod Laws
use code_push.Common.{
  ℕ, String, Bool, true, false, Option, none, some, List, [], ◌∷◌, ◌++◌, if◌then◌else◌,
}
use code_push.Common.Uri.{encode_uri_component}

value_text : Option String → List ℕ
value_text none = []
value_text (some s) = encode_uri_component s

query_from : List ℕ → Bool → List (String × Option String) → List ℕ
unfolding value_text
query_from query_string is_first [] = query_string
query_from query_string is_first ((property, value) ∷ object) =
    let separated = query_string ++ (if is_first then [] else b'&' ∷ []) in
    let named = separated ++ (encode_uri_component property ++ b'=' ∷ []) in
    query_from (named ++ value_text value) false object

unfoldable pub query_stringify : List (String × Option String) → List ℕ
unfolding query_from
query_stringify object = query_from [] true object
