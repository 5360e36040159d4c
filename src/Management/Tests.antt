-- ===== src/Management/Tests.antt =====
-- Runs of the management SDK, and its theorems at concrete data.
use code_push.Common.{
  ◌&&◌, not, ◌==◌, ◌-◌, ◌*◌, refl, ◌≡◌, ◌≢◌, ◌↔◌, ◌<>◌, String, true, false, Option, none, some, [],
  ◌∷◌, map, eq_iff, arith, if◌then◌else◌,
}
use code_push.Common.Text.{count_char}
use code_push.Common.Promise.{done, resolved}
use code_push.Management.{AccountManager, PackageInfo}
use code_push.Management.Release.{
  Files, Post, ends, generate_random_filename, package_file_from_path, release, release_post,
}
use code_push.Management.Release.Laws.{
  IsSettled, AnsweredBy, AcceptedBy, Posted, release-settles_iff,
}
use code_push.Management.Request.{
  RequestError, Reply, resolves, crashes, on_authenticated, on_end, attach_credentials,
}
use code_push.Management.Request.Laws.{
  Succeeds, on_end_iff, on_authenticated_iff, last_set, last_set-attach_credentials,
}
use code_push.Management.Endpoints.{app_name_param, promote}
use code_push.Management.Endpoints.Laws.{path_of, segments-promote, count_char-app_name_param}
use code_push.Management.Endpoints.Names.{bytes, restore}
use code_push.Common.Split.{split}
use code_push.Common.Uri.Laws.{percent_decode}
use code_push.Management.Sessions.{ServerAccessKey, sessions_of}
use code_push.Management.Sessions.Laws.{has_session, count_sessions, count_sessions-sessions_of}

abbrev manager : AccountManager
manager = record {
  access_key = "key";
  custom_headers = ("Authorization", "none") ∷ [];
  server_url = "https://host";
  proxy = none;
}

abbrev no_error : Option RequestError
no_error = none

abbrev no_content : Reply String
no_content = record { status = 204; ok = true; text = ""; body = none }

abbrev metadata : PackageInfo
metadata = record {
  app_version = none;
  description = some "";
  label = some "v2";
  is_disabled = none;
  is_mandatory = none;
  rollout = some 25;
}

abbrev session_key : ServerAccessKey
session_key = record {
  created_time = 1;
  expires = 100;
  friendly_name = "s";
  created_by = "laptop";
  is_session = true;
}

on_end_iff_example :
    (on_end (λ s. some s) false none (some no_content) ≡ resolves none)
    ↔ Succeeds false none (some no_content) none
on_end_iff_example = on_end_iff (λ s. some s) false none (some no_content) none

on_authenticated_iff_example :
    ((on_authenticated true no_error (some no_content) ≡ resolves true)
      ↔ ((no_error ≡ none) × (no_content.status ≡ 200)))
    × ((on_authenticated true no_error (some no_content) ≡ crashes)
        ↔ ((true ≡ true) × (no_error ≡ none) × (no_content.status ≢ 200)))
on_authenticated_iff_example = on_authenticated_iff true no_error no_content

last_set-attach_credentials_example :
    (last_set (λ s. s) "Accept" (attach_credentials "2.0" manager)
      ≡ some "application/vnd.code-push.v2+json")
    × (last_set (λ s. s) "Authorization" (attach_credentials "2.0" manager)
        ≡ some ("Bearer " <> "key"))
    × (last_set (λ s. s) "X-CodePush-SDK-Version" (attach_credentials "2.0" manager) ≡ some "2.0")
last_set-attach_credentials_example =
    last_set-attach_credentials (λ s. s) "2.0" manager
      (ground (arith, eq_iff "Accept" "Authorization"))
      (ground (arith, eq_iff "Accept" "X-CodePush-SDK-Version"))
      (ground (arith, eq_iff "Authorization" "X-CodePush-SDK-Version"))

segments-promote_example :
    let path = (promote "me/app" "Staging" "Production" metadata).endpoint in
    let read = path_of (bytes (app_name_param "me/app")) (bytes "Staging") (bytes "Production") in
    (map percent_decode (split b'/' path) ≡ read)
    × (split b'/' (percent_decode path) ≡ read)
    × (restore (bytes (app_name_param "me/app")) ≡ bytes "me/app")
unfolding count_char
segments-promote_example =
    segments-promote "me/app" "Staging" "Production" metadata (ground arith) refl refl refl

count_char-app_name_param_example :
    count_char b'/' (app_name_param "a/b/c") ≡ count_char b'/' "a/b/c" - 1
count_char-app_name_param_example = count_char-app_name_param "a/b/c"

count_sessions-sessions_of_example :
    count_sessions "laptop" (sessions_of 50 (session_key ∷ session_key ∷ [])) ≡ (
      if has_session 50 "laptop" (session_key ∷ session_key ∷ []) && not ("laptop" == "__proto__")
      then 1
      else 0)
count_sessions-sessions_of_example =
    count_sessions-sessions_of 50 "laptop" (session_key ∷ session_key ∷ [])

abbrev folder : Files
folder = record {
  is_directory = λ path. some true;
  list = λ path. resolved ("www/index.js" ∷ []);
  dirname = λ path. "";
  relative = λ base file. file;
  slash = λ path. path;
  random = λ i. i;
  in_working_directory = λ name. "/work/" <> name;
  written = λ name entries. resolved done;
}

abbrev accepted : Post → Option (Option RequestError × Option (Reply String))
accepted post = some (none, some no_content)

-- The name of the archive.
random_name : generate_random_filename (λ i. i * 10) 5 ≡ "AKUeo"
unfolding generate_random_filename
random_name = refl

release-settles_iff_example :
    ((release some folder accepted "1.0.0" manager "App" "Staging" "www"
          (some "1.2.3")
          metadata).result
        ≡ ends (resolves done)
      ↔ Posted AcceptedBy accepted
          (release_post "1.0.0" manager "App" "Staging" (some "1.2.3") metadata)
          (package_file_from_path folder "www" true).result)
    × (IsSettled
          (release some folder accepted "1.0.0" manager "App" "Staging" "www"
            (some "1.2.3")
            metadata).result
        ↔ Posted AnsweredBy accepted
            (release_post "1.0.0" manager "App" "Staging" (some "1.2.3") metadata)
            (package_file_from_path folder "www" true).result)
release-settles_iff_example =
    release-settles_iff some folder accepted "1.0.0" manager "App" "Staging" "www" (some "1.2.3")
      metadata true refl
