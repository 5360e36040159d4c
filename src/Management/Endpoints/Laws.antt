-- ===== src/Management/Endpoints/Laws.antt =====
-- What a server reads from the paths of the requests.
use mathlib.Core.List.{append-nil}
use code_push.Common.{ℕ, ◌-◌, ◌≤◌, ◌≡◌, refl, ap, ◌∙◌, String, List, [], ◌∷◌, ◌++◌, map, arith}
use code_push.Common.Json.{codes}
use code_push.Common.Text.{count_char}
use code_push.Common.Text.Laws.{count_char-replace_first}
use code_push.Common.Split.{split, Without, split_part, split_parts}
use code_push.Common.Uri.{encode_uri_component, utf8_code}
use code_push.Common.Uri.Laws.{
  NoSeparator, escape_codes-NoSeparator, percent_decode, utf8, percent_decode-encode_uri_component,
  IsUnescaped, percent_decode-encoded, percent_decode-unescaped,
}
use code_push.Management.{PackageInfo, posting}
use code_push.Management.Endpoints.{url_encode, app_name_param, promote}
use code_push.Management.Endpoints.Names.{bytes, restore, bytes-Without, restore-app_name_param}

NoSeparator-Without : (l : List ℕ) → NoSeparator l → Without b'/' l
NoSeparator-Without [] h = tt
NoSeparator-Without (c ∷ l) (p, h) = (ground arith, NoSeparator-Without l h)

-- The segments of a path, decoded.
abbrev pub segments : List ℕ → List (List ℕ)
segments path = map percent_decode (split b'/' path)

encoded-Without : (s : String) → Without b'/' (encode_uri_component s)
encoded-Without s = NoSeparator-Without _ (escape_codes-NoSeparator (codes s))

split-encoded :
    (s : String) (l : List ℕ)
    → split b'/' (encode_uri_component s ++ b'/' ∷ l) ≡ encode_uri_component s ∷ split b'/' l
split-encoded s l = split_parts b'/' (encode_uri_component s) l (encoded-Without s) refl

split-last_encoded :
    (s : String) → split b'/' (encode_uri_component s ++ []) ≡ encode_uri_component s ∷ []
split-last_encoded s =
    rw (append-nil (encode_uri_component s))
      (split_part b'/' (encode_uri_component s) (encoded-Without s))

-- The segments of the path of a promotion.
abbrev pub path_of : List ℕ → List ℕ → List ℕ → List (List ℕ)
path_of app source destination =
    [] ∷ bytes "apps" ∷ app ∷ bytes "deployments" ∷ source ∷ bytes "promote" ∷ destination ∷ []

split_segments-promote :
    (app source destination : String) (metadata : PackageInfo)
    → segments (promote app source destination metadata).endpoint
      ≡ path_of (bytes (app_name_param app)) (bytes source) (bytes destination)
unfolding promote posting url_encode split percent_decode utf8 utf8_code
split_segments-promote app source destination metadata = rw (
  split-encoded (app_name_param app),
  split-encoded source,
  split-last_encoded destination,
  percent_decode-encode_uri_component (app_name_param app),
  percent_decode-encode_uri_component source,
  percent_decode-encode_uri_component destination,
)

-- The texts between the names in the path of a promotion.
abbrev apps : List ℕ
apps = codes "/apps/"

abbrev deployments : List ℕ
deployments = codes "/deployments/"

abbrev promotes : List ℕ
promotes = codes "/promote/"

literals-IsUnescaped : IsUnescaped apps × IsUnescaped deployments × IsUnescaped promotes
literals-IsUnescaped = ground arith

percent_decode-promote :
    (app source destination : String) (metadata : PackageInfo)
    → percent_decode (promote app source destination metadata).endpoint
      ≡ apps
        ++ (bytes (app_name_param app)
            ++ (deployments ++ (bytes source ++ (promotes ++ (bytes destination ++ [])))))
unfolding promote posting url_encode percent_decode
percent_decode-promote app source destination metadata =
    let (p, q, r) = literals-IsUnescaped in
    percent_decode-unescaped apps _ p
    ∙ ap (◌++◌ apps) (
        percent_decode-encoded (app_name_param app) _
        ∙ ap (◌++◌ (bytes (app_name_param app))) (
            percent_decode-unescaped deployments _ q
            ∙ ap (◌++◌ deployments) (
                percent_decode-encoded source _
                ∙ ap (◌++◌ (bytes source)) (
                    percent_decode-unescaped promotes _ r
                    ∙ ap (◌++◌ promotes) (percent_decode-encoded destination [])))))

split-decoded :
    (app source destination : List ℕ)
    → Without b'/' app
    → Without b'/' source
    → Without b'/' destination
    → split b'/' (apps ++ (app ++ (deployments ++ (source ++ (promotes ++ (destination ++ []))))))
      ≡ path_of app source destination
unfolding split utf8 utf8_code
split-decoded app source destination p q r = rw (
  split_parts b'/' app (codes "deployments/" ++ (source ++ (promotes ++ (destination ++ [])))) p
      refl,
  split_parts b'/' source (codes "promote/" ++ (destination ++ [])) q refl,
  append-nil destination,
  split_part b'/' destination r,
)

-- The slashes of an app name that reach the URL: the first one is replaced, and no other.
pub count_char-app_name_param :
    (app : String) → count_char b'/' (app_name_param app) ≡ count_char b'/' app - 1
unfolding app_name_param count_char
count_char-app_name_param app = count_char-replace_first b'/' "~~" app refl

app_name_param-Without :
    (app : String) → count_char b'/' app ≤ 1 → Without b'/' (bytes (app_name_param app))
app_name_param-Without app h =
    bytes-Without b'/' (app_name_param app) (omega arith)
      (omega (arith, count_char-app_name_param app))

-- Whether a server cuts the path of a promotion at the slashes and then decodes the segments, or
-- decodes the path and then cuts it, it reads the parameter of the app and the two deployments at
-- their places, for an app name of at most one slash and deployment names of none. Where the app
-- name has no "~" either, it is the parameter with a slash for "~~".
pub segments-promote :
    (app source destination : String) (metadata : PackageInfo)
    → count_char b'/' app ≤ 1
    → count_char b'~' app ≡ 0
    → count_char b'/' source ≡ 0
    → count_char b'/' destination ≡ 0
    → let path = (promote app source destination metadata).endpoint in
      let read = path_of (bytes (app_name_param app)) (bytes source) (bytes destination) in
      (map percent_decode (split b'/' path) ≡ read)
      × (split b'/' (percent_decode path) ≡ read)
      × (restore (bytes (app_name_param app)) ≡ bytes app)
segments-promote app source destination metadata one plain p q = (
  split_segments-promote app source destination metadata,
  rw (percent_decode-promote app source destination metadata) (
      split-decoded (bytes (app_name_param app)) (bytes source) (bytes destination)
        (app_name_param-Without app one) (bytes-Without b'/' source (omega arith) p)
        (bytes-Without b'/' destination (omega arith) q)),
  restore-app_name_param app one plain,
)
