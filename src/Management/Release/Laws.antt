-- ===== src/Management/Release/Laws.antt =====
-- When the promise of `release` is resolved, when it is never settled, and what is left of the
-- temporary archive.
use code_push.Common.{
  ◌≡◌, ◌↔◌, refl, String, Bool, true, false, Option, none, some, List, if◌then◌else◌,
}
use code_push.Common.Promise.{done, Promise, resolved, rejected, pending}
use code_push.Management.{AccountManager, PackageInfo}
use code_push.Management.Request.{
  RequestError, Reply, CodePushError, resolves, rejects, crashes, get_code_push_error,
}
use code_push.Management.Release.{
  PackageFile, Files, Post, Effect, Ending, throws, waits, ends, ending, posted,
  package_file_from_path, on_release_end, release_post, release,
}

-- The promise is settled.
abbrev pub IsSettled : Ending → Type 0
IsSettled (throws e) = Unit
IsSettled (ends (resolves u)) = Unit
IsSettled (ends (rejects e)) = Unit
IsSettled (ends crashes) = ⊥
IsSettled waits = ⊥

-- What `end` hands to its handler is an error or a response.
abbrev pub AnsweredBy : {J : Type 0} → Option (Option RequestError × Option (Reply J)) → Type 0
AnsweredBy none = ⊥
AnsweredBy (some (none, none)) = ⊥
AnsweredBy (some (none, some r)) = Unit
AnsweredBy (some (some e, r)) = Unit

-- It is no error, and a response that is fine.
abbrev pub AcceptedBy : {J : Type 0} → Option (Option RequestError × Option (Reply J)) → Type 0
AcceptedBy none = ⊥
AcceptedBy (some (none, none)) = ⊥
AcceptedBy (some (none, some r)) = r.ok ≡ true
AcceptedBy (some (some e, r)) = ⊥

-- There is a file, and its request is answered in such a way.
abbrev pub Posted :
    {A : Type 0} → (A → Type 0) → (Post → A) → (String → Post) → Promise PackageFile → Type 0
Posted P answer post (resolved file) = P (answer (post file.path))
Posted P answer post (rejected e) = ⊥
Posted P answer post pending = ⊥

fine_iff :
    (ok : Bool) (e : CodePushError)
    → (ends (if ok then resolves done else rejects e) ≡ ends (resolves done) ↔ (ok ≡ true))
      × (IsSettled (ends (if ok then resolves done else rejects e)) ↔ Unit {0})
fine_iff true e = ((λ h. refl, λ h. refl), (λ h. tt, λ h. tt))
fine_iff false e = ((λ h. cc, λ h. cc), (λ h. tt, λ h. tt))

module _ {J : Type 0} (message_of : J → Option String) where
  answered_iff :
      (a : Option (Option RequestError × Option (Reply J)))
      → (ending message_of a ≡ ends (resolves done) ↔ AcceptedBy a)
        × (IsSettled (ending message_of a) ↔ AnsweredBy a)
  unfolding on_release_end get_code_push_error
  answered_iff none = ((λ h. cc, λ h. absurd h), (λ h. h, λ h. h))
  answered_iff (some (none, none)) = ((λ h. cc, λ h. absurd h), (λ h. h, λ h. h))
  answered_iff (some (some e, r)) = ((λ h. cc, λ h. absurd h), (λ h. tt, λ h. tt))
  answered_iff (some (none, some r)) = fine_iff r.ok _

  posted_iff :
      (answer : Post → Option (Option RequestError × Option (Reply J))) (post : String → Post)
      (effects : List Effect) (p : Promise PackageFile)
      → let run = posted message_of answer post (record { effects = effects; result = p }) in
        (run.result ≡ ends (resolves done) ↔ Posted AcceptedBy answer post p)
        × (IsSettled run.result ↔ Posted AnsweredBy answer post p)
  posted_iff answer post effects (resolved file) = answered_iff (answer (post file.path))
  posted_iff answer post effects (rejected e) = ((λ h. cc, λ h. absurd h), (λ h. h, λ h. h))
  posted_iff answer post effects pending = ((λ h. cc, λ h. absurd h), (λ h. h, λ h. h))

  -- Where something is at the path, the promise of `release` is resolved exactly when the package's
  -- file could be made and its request is answered by no error and a response that is fine. It is
  -- settled exactly when the file could be made and the request is answered by an error or a
  -- response: where the archive cannot be made, the promise waits for ever.
  pub release-settles_iff :
      (files : Files) (answer : Post → Option (Option RequestError × Option (Reply J)))
      (version : String) (m : AccountManager) (app deployment path : String)
      (target_version : Option String) (metadata : PackageInfo) (is_directory : Bool)
      → files.is_directory path ≡ some is_directory
      → let run =
          release message_of files answer version m app deployment path target_version metadata in
        let post = release_post version m app deployment target_version metadata in
        let file = (package_file_from_path files path is_directory).result in
        (run.result ≡ ends (resolves done) ↔ Posted AcceptedBy answer post file)
        × (IsSettled run.result ↔ Posted AnsweredBy answer post file)
  unfolding release
  release-settles_iff files answer version m app deployment path target_version metadata
        is_directory h =
      rw (release, h)
        (posted_iff answer (release_post version m app deployment target_version metadata) _
          (package_file_from_path files path is_directory).result)
