-- ===== src/Management/Release.antt =====
-- `release`, with `packageFileFromPath` and `generateRandomFilename`. The libraries recursive-fs,
-- yazl, slash and superagent, and node's `fs` and `path`, answer what a record of functions says.
pub mod Laws
use code_push.Common.{
  ℕ, zero, suc, ◌<>◌, String, Bool, true, false, Option, none, some, List, [], ◌∷◌, ◌++◌, map,
  if◌then◌else◌,
}
use code_push.Common.Json.{codes}
use code_push.Common.Text.{take, drop}
use code_push.Common.Promise.{Done, done, Failure, error, Promise, resolved, rejected, pending}
use code_push.Management.{AccountManager, PackageInfo}
use code_push.Management.Endpoints.{deployment_endpoint}
use code_push.Management.Request.{
  RequestError, Reply, Outcome, resolves, rejects, crashes, get_code_push_error, message_or_text,
  proxy_of, attach_credentials,
}

-- `PackageFile`
pub record PackageFile : Type 0 where
  pub is_temporary : Bool
  pub path : String

-- `lstatSync`, which throws where nothing is there; `readdirr`; `dirname`, `relative` and `slash`;
-- the indices that `Math.random` gives; a name in the working directory; and what becomes of the
-- stream to which an archive with these files under these names is written.
pub record Files : Type 0 where
  pub is_directory : String → Option Bool
  pub list : String → Promise (List String)
  pub dirname : String → String
  pub relative : String → String → String
  pub slash : String → String
  pub random : ℕ → ℕ
  pub in_working_directory : String → String
  pub written : String → List (String × String) → Promise Done

-- The request, when `end` is called on it.
pub record Post : Type 0 where
  pub url : List ℕ
  pub proxy : Option String
  pub headers : List (String × String)
  pub package_path : String
  pub package_info : PackageInfo

pub data Effect : Type 0 where
  archives : (file_name : String) (entries : List (String × String)) → Effect
  posts : Post → Effect
  unlinks : (path : String) → Effect

-- The promise of `release`: rejected by an error that is thrown before anything else, never
-- settled, or settled by the handler of `end`, if this does not throw.
pub data Ending : Type 0 where
  throws : Failure → Ending
  waits : Ending
  ends : Outcome Done → Ending

-- Effects, and what comes of them.
pub record Doing (A : Type 0) : Type 0 where
  pub effects : List Effect
  pub result : A

random_from : (ℕ → ℕ) → ℕ → ℕ → String
unfolding take drop
random_from random i zero = ""
random_from random i (suc n) =
    take 1 (drop (random i) "ABCDEFGHIJKLMNOPQRSTUVWXYZabcdefghijklmnopqrstuvwxyz0123456789")
    <> random_from random (suc i) n

-- `generateRandomFilename`
unfoldable pub generate_random_filename : (ℕ → ℕ) → ℕ → String
unfolding random_from
generate_random_filename random length = random_from random 0 length

abbrev file_when_written : String → Promise Done → Promise PackageFile
file_when_written path (resolved u) = resolved (record { is_temporary = true; path = path })
file_when_written path (rejected e) = rejected e
file_when_written path pending = pending

abbrev archive : Files → String → Promise (List String) → Doing (Promise PackageFile)
archive files path (rejected e) = record { effects = []; result = rejected e }
archive files path pending = record { effects = []; result = pending }
archive files path (resolved names) =
    let file_name = generate_random_filename files.random 15 <> ".zip" in
    let entries =
      map (λ name. (name, files.slash (files.relative (files.dirname path) name))) names in
    record {
      effects = archives file_name entries ∷ [];
      result =
          file_when_written (files.in_working_directory file_name)
            (files.written file_name entries);
    }

-- `packageFileFromPath`, for a path that is a directory or not.
unfoldable pub package_file_from_path : Files → String → Bool → Doing (Promise PackageFile)
unfolding generate_random_filename
package_file_from_path files path true = archive files path (files.list path)
package_file_from_path files path false = record {
  effects = [];
  result = resolved (record { is_temporary = false; path = path });
}

-- The request of `release` for a file.
unfoldable pub release_post :
    String → AccountManager → String → String → Option String → PackageInfo → String → Post
unfolding deployment_endpoint attach_credentials
release_post version m app deployment target_version metadata path = record {
  url = codes m.server_url ++ deployment_endpoint app deployment "/release";
  proxy = proxy_of m.proxy;
  headers = attach_credentials version m;
  package_path = path;
  package_info = record metadata { app_version = target_version };
}

module _ {J : Type 0} (message_of : J → Option String) where
  -- The handler of `end`. It reads a field of the response, and throws where there is none.
  unfoldable pub on_release_end : Option RequestError → Option (Reply J) → Outcome Done
  unfolding get_code_push_error
  on_release_end (some e) r = get_code_push_error (some e) r
  on_release_end none none = crashes
  on_release_end none (some r) =
      if r.ok
      then resolves done
      else rejects (record { message = message_or_text message_of r; status_code = r.status })

  abbrev ending : Option (Option RequestError × Option (Reply J)) → Ending
  ending none = waits
  ending (some (e, r)) = ends (on_release_end e r)

  abbrev unlinked : PackageFile → Option (Option RequestError × Option (Reply J)) → List Effect
  unlinked file none = []
  unlinked file (some answer) = if file.is_temporary then unlinks file.path ∷ [] else []

  -- What `then` does with the file of the package. There is no handler for its rejection.
  abbrev pub posted :
      (Post → Option (Option RequestError × Option (Reply J)))
      → (String → Post)
      → Doing (Promise PackageFile)
      → Doing Ending
  posted answer post packaging = elim packaging.result [
    | resolved file ↦ record {
      effects =
          packaging.effects ++ posts (post file.path) ∷ unlinked file (answer (post file.path));
      result = ending (answer (post file.path));
    }
    | _ ↦ record { effects = packaging.effects; result = waits }
  ]

  unfoldable pub release :
      Files
      → (Post → Option (Option RequestError × Option (Reply J)))
      → String
      → AccountManager
      → String
      → String
      → String
      → Option String
      → PackageInfo
      → Doing Ending
  unfolding package_file_from_path on_release_end release_post
  release files answer version m app deployment path target_version metadata =
      elim (files.is_directory path) [
        | none ↦ record {
          effects = [];
          result = throws (error "ENOENT: no such file or directory");
        }
        | some is_directory ↦
            posted answer (release_post version m app deployment target_version metadata)
              (package_file_from_path files path is_directory)
      ]
