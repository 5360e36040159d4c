-- ===== src/Acquisition/Query/Laws.antt =====
-- A server reads the properties of the object back from the query string.
use mathlib.Core.List.{append_assoc, append-nil}
use code_push.Common.{
  ℕ, ◌≡◌, refl, sym, ap, ◌∙◌, String, true, false, Option, none, some, List, [], ◌∷◌, ◌++◌, map,
  if◌then◌else◌, eqb, arith,
}
use code_push.Common.Json.{codes}
use code_push.Common.Split.{split, Without, Without-append, split_part, split_parts}
use code_push.Common.Uri.{encode_uri_component}
use code_push.Common.Uri.Laws.{
  NoSeparator, escape_codes-NoSeparator, percent_decode, utf8, percent_decode-encode_uri_component,
}
use code_push.Acquisition.Query.{value_text, query_from, query_stringify}

-- The text before the first occurrence of a character, and the text behind it.
pub cut : ℕ → List ℕ → List ℕ × List ℕ
cut n [] = ([], [])
cut n (c ∷ l) = let (before, after) = cut n l in if eqb c n then ([], l) else (c ∷ before, after)

-- What a server reads: the parts between "&", each cut at its first "=", decoded.
pub parse_query : List ℕ → List (List ℕ × List ℕ)
parse_query query =
    map (λ part. let (name, value) = cut b'=' part in (percent_decode name, percent_decode value))
      (split b'&' query)

NoSeparator-Without : (l : List ℕ) → NoSeparator l → Without b'&' l × Without b'=' l
NoSeparator-Without [] h = (tt, tt)
NoSeparator-Without (c ∷ l) (p, h) =
    let (no_and, no_equals) = NoSeparator-Without l h in
    ((ground arith, no_and), (ground arith, no_equals))

cut_lem : (n : ℕ) (k l : List ℕ) → Without n k → eqb n n ≡ true → cut n (k ++ n ∷ l) ≡ (k, l)
unfolding cut
cut_lem n [] l h e = rw e
cut_lem n (c ∷ k) l (p, h) e = rw (p, cut_lem n k l h e)

piece : String × Option String → List ℕ
piece (property, value) = encode_uri_component property ++ b'=' ∷ value_text value

pieces : List (String × Option String) → List ℕ
unfolding piece
pieces [] = []
pieces (field ∷ object) = b'&' ∷ piece field ++ pieces object

query_from-eq-append :
    (object : List (String × Option String)) (query : List ℕ)
    → query_from query false object ≡ query ++ pieces object
unfolding query_from pieces
query_from-eq-append [] query = sym (append-nil query)
query_from-eq-append ((property, value) ∷ object) query =
    query_from-eq-append object _ ∙ simp append_assoc

query_stringify_lem :
    (field : String × Option String) (object : List (String × Option String))
    → query_stringify (field ∷ object) ≡ piece field ++ pieces object
unfolding query_stringify piece
query_stringify_lem (property, value) object = query_from-eq-append object _ ∙ simp append_assoc

value_text-NoSeparator : (value : Option String) → NoSeparator (value_text value)
unfolding value_text
value_text-NoSeparator none = tt
value_text-NoSeparator (some s) = escape_codes-NoSeparator (codes s)

piece-Without : (field : String × Option String) → Without b'&' (piece field)
unfolding piece
piece-Without (property, value) =
    Without-append b'&' (encode_uri_component property) (b'=' ∷ value_text value)
      (NoSeparator-Without _ (escape_codes-NoSeparator (codes property))).0
      (refl, (NoSeparator-Without _ (value_text-NoSeparator value)).0)

split-pieces :
    (field : String × Option String) (object : List (String × Option String))
    → split b'&' (piece field ++ pieces object) ≡ map piece (field ∷ object)
unfolding pieces
split-pieces field [] = rw append-nil (split_part b'&' (piece field) (piece-Without field))
split-pieces field (next ∷ object) =
    split_parts b'&' (piece field) (piece next ++ pieces object) (piece-Without field) refl
    ∙ ap (◌∷◌ (piece field)) (split-pieces next object)

-- The bytes of a name and of a value; a missing value is empty.
abbrev pub bytes_of : String × Option String → List ℕ × List ℕ
bytes_of (property, none) = (utf8 (codes property), [])
bytes_of (property, some s) = (utf8 (codes property), utf8 (codes s))

read_piece :
    (field : String × Option String)
    → (let (name, value) = cut b'=' (piece field) in (percent_decode name, percent_decode value))
      ≡ bytes_of field
unfolding piece value_text percent_decode
read_piece (property, none) =
    rw
      (cut_lem b'=' (encode_uri_component property) []
        (NoSeparator-Without _ (escape_codes-NoSeparator (codes property))).1 refl)
      (ap (λ name. (name, [])) (percent_decode-encode_uri_component property))
read_piece (property, some s) =
    rw
      (
        cut_lem b'=' (encode_uri_component property) (encode_uri_component s)
            (NoSeparator-Without _ (escape_codes-NoSeparator (codes property))).1 refl,
        percent_decode-encode_uri_component property,
      )
      (ap (λ value. (utf8 (codes property), value)) (percent_decode-encode_uri_component s))

map-read_piece :
    (object : List (String × Option String))
    → map
        (λ part. let (name, value) = cut b'=' part in (percent_decode name, percent_decode value))
        (map piece object)
      ≡ map bytes_of object
map-read_piece [] = refl
map-read_piece (field ∷ object) = cc (read_piece field, map-read_piece object)

-- A server that cuts the query string at "&", each part at its first "=", and decodes the parts,
-- has the UTF-8 bytes of every property and of its value, in their order, with empty values for
-- those that are missing. This holds for every object with a property.
pub parse_query-query_stringify :
    (field : String × Option String) (object : List (String × Option String))
    → parse_query (query_stringify (field ∷ object)) ≡ map bytes_of (field ∷ object)
unfolding parse_query
parse_query-query_stringify field object =
    rw (query_stringify_lem field object, split-pieces field object)
      (map-read_piece (field ∷ object))
