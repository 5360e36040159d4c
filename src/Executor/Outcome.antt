-- ===== src/Executor/Outcome.antt =====
-- When `promote`, `release` and `logout` succeed.
use code_push.Common.{
  inl, inr, if◌then◌else◌, is_some, ◌≡◌, ◌↔◌, ◌⊎◌, refl, sym, String, Bool, true, false, Option,
  none, some, List, arith, ◌||◌, not,
}
use code_push.Common.Promise.{Done, done, Failure, Promise, resolved, rejected, pending}
use code_push.Parser.{ReleaseInfo}
use code_push.Management.{AccountManager, Operation}
use code_push.Management.Endpoints
use code_push.Executor.{
  Stored, Effect, calls, forgets, checks, Run, pure, handled, catching, guard, doing, or_throw,
  ◌>>◌, ◌>>=◌,
}
use code_push.Executor.Release.{
  ReleaseCommand, release, check_and_upload, upload_of, is_binary_or_zip,
}
use code_push.Executor.Prompt.{throw_for_invalid_semver_range}
use code_push.Executor.Sdk.{
  Environment, call, is_authenticated, upload, patched, forgets_if_unauthorized, has_status, is_set,
}
use code_push.Executor.Connection.{file_after}
use code_push.Executor.Deployments.{release_error_handler, run_promote, package_info_of}
use code_push.Executor.Login.{run_logout}

-- The promise is resolved, or it is rejected with the status 409 and this is to be no error.
abbrev pub IsAccepted : Option Bool → Promise Done → Type 0
IsAccepted no_duplicate_release_error (resolved u) = Unit
IsAccepted no_duplicate_release_error (rejected e) =
    (is_set no_duplicate_release_error ≡ true) × (has_status 409 e.status_code ≡ true)
IsAccepted no_duplicate_release_error pending = ⊥

handled_iff :
    (quiet : Option Bool) (effects : List Effect) (p : Promise Done)
    → (handled effects p (release_error_handler quiet)).result ≡ resolved done ↔ IsAccepted quiet p
unfolding release_error_handler
handled_iff quiet effects (resolved done) = ground arith
handled_iff quiet effects (rejected e) = ground arith
handled_iff quiet effects pending = ground arith

patched-result : {A : Type 0} (effect : Effect) (p : Promise A) → (patched effect p).result ≡ p
unfolding patched
patched-result effect p = refl

-- A promotion succeeds exactly when its request does, or when the request fails with the status 409
-- and such a failure is to be no error.
pub run_promote_iff :
    (env : Environment) (sdk : AccountManager) (app source dest : String) (quiet : Option Bool)
    (info : ReleaseInfo)
    → (run_promote env sdk app source dest quiet info).result ≡ resolved done
      ↔ IsAccepted quiet (env.send sdk (Endpoints.promote app source dest (package_info_of info)))
unfolding run_promote call
run_promote_iff env sdk app source dest quiet info = handled_iff quiet _ _

-- Both in turn: the key is checked, and then the package is uploaded.
abbrev pub checked_and_uploaded : Promise Bool → Promise Done → Promise Done
checked_and_uploaded (resolved known) p = p
checked_and_uploaded (rejected e) p = rejected e
checked_and_uploaded pending p = pending

check_and_upload-result :
    (env : Environment) (sdk : AccountManager) (r : ReleaseCommand)
    → (check_and_upload env sdk r).result
      ≡ checked_and_uploaded (env.key_is_valid sdk true) (env.upload sdk (upload_of r))
unfolding check_and_upload is_authenticated upload patched
check_and_upload-result env sdk r = go (env.key_is_valid sdk true)
  where
    go :
        (p : Promise Bool)
        → (patched (checks sdk true) p >>= λ known. upload env sdk (upload_of r)).result
          ≡ checked_and_uploaded p (env.upload sdk (upload_of r))
    go (resolved known) = refl
    go (rejected e) = refl
    go pending = refl

behind_checks_iff :
    (archive valid : Bool) (found : Option Bool) (e f g : Failure) (quiet : Option Bool)
    (run : Run Done)
    → (do
      guard (not archive) e
      guard valid f
      is_directory ← or_throw found g
      catching run (release_error_handler quiet)).result
        ≡ resolved done
      ↔ ((archive ≡ false) × (valid ≡ true) × (is_some found ≡ true) × IsAccepted quiet run.result)
behind_checks_iff true valid found e f g quiet run = (λ h. cc, λ h. cc)
behind_checks_iff false false found e f g quiet run = (λ h. cc, λ h. cc)
behind_checks_iff false true none e f g quiet run = (λ h. cc, λ h. cc)
behind_checks_iff false true (some is_directory) e f g quiet run =
    let h = handled_iff quiet run.effects run.result in
    (λ k. (refl, refl, refl, h.0 k), λ k. h.1 k.3)

rejected-injective : (e f : Failure) → ◌≡◌ {A = Promise Bool} (rejected e) (rejected f) → e ≡ f
rejected-injective e f k = cc

IsAccepted-iff :
    (quiet : Option Bool) (check : Promise Bool) (p : Promise Done)
    → IsAccepted quiet (checked_and_uploaded check p) ↔ (
        ((known : Bool) × (check ≡ resolved known) × IsAccepted quiet p)
        ⊎ ((e : Failure) × (check ≡ rejected e) × IsAccepted quiet (rejected e)))
IsAccepted-iff quiet (resolved known) p =
    (λ h. inl (known, refl, h), λ h. elim h [ inl (b, e, a) ↦ a | inr (f, e, a) ↦ cc ])
IsAccepted-iff quiet (rejected e) p = (
  λ h. inr (e, refl, h),
  λ h. elim h [ inl (b, k, a) ↦ cc | inr (f, k, a) ↦ rw (sym (rejected-injective e f k)) at a ],
)
IsAccepted-iff quiet pending p =
    (λ h. absurd h, λ h. elim h [ inl (b, e, a) ↦ cc | inr (f, e, a) ↦ cc ])

release-checked_iff :
    (env : Environment) (sdk : AccountManager) (r : ReleaseCommand)
    → (release env sdk r).result ≡ resolved done ↔ (
        (is_binary_or_zip r.package_path ≡ false)
        × (env.valid_range r.info.app_store_version ≡ true)
        × (is_some (env.is_directory r.package_path) ≡ true)
        × IsAccepted r.no_duplicate_release_error
            (checked_and_uploaded (env.key_is_valid sdk true) (env.upload sdk (upload_of r))))
unfolding release throw_for_invalid_semver_range
release-checked_iff env sdk r =
    rw (sym (check_and_upload-result env sdk r))
      (behind_checks_iff _ _ _ _ _ _ r.no_duplicate_release_error (check_and_upload env sdk r))

-- A release succeeds exactly when the path is of no archive or binary, the target version is a valid
-- range, something is at the path, and one of two things holds: the check of the key is resolved and
-- the upload succeeds or fails with the status 409 where such a failure is to be no error, or the
-- check itself fails with this status where that is to be no error.
pub release_iff :
    (env : Environment) (sdk : AccountManager) (r : ReleaseCommand)
    → let quiet = r.no_duplicate_release_error in
      (release env sdk r).result ≡ resolved done ↔ (
        (is_binary_or_zip r.package_path ≡ false)
        × (env.valid_range r.info.app_store_version ≡ true)
        × (is_some (env.is_directory r.package_path) ≡ true)
        × (((known : Bool) × (env.key_is_valid sdk true ≡ resolved known)
              × IsAccepted quiet (env.upload sdk (upload_of r)))
            ⊎ ((e : Failure) × (env.key_is_valid sdk true ≡ rejected e)
                × IsAccepted quiet (rejected e))))
release_iff env sdk r =
    let checked = release-checked_iff env sdk r in
    let accepted =
      IsAccepted-iff r.no_duplicate_release_error (env.key_is_valid sdk true)
        (env.upload sdk (upload_of r)) in
    (
      λ h. let c = checked.0 h in (c.0, c.1, c.2, accepted.0 c.3),
      λ c. checked.1 (c.0, c.1, c.2, accepted.1 c.3),
    )

-- The session is gone: the request has deleted it, or the server knows no such session or key.
abbrev pub IsGone : Promise Done → Type 0
IsGone (resolved u) = Unit
IsGone (rejected e) = (has_status 401 e.status_code || has_status 404 e.status_code) ≡ true
IsGone pending = ⊥

-- `logout` with the test of `preserveAccessKeyOnLogout` and the promise of the request.
abbrev logout_with : AccountManager → Operation → Bool → Promise Done → Run Done
logout_with sdk operation preserve p =
    (if preserve
      then pure done
      else catching (patched (calls sdk operation) p)
          (λ e. guard (has_status 401 e.status_code || has_status 404 e.status_code) e))
    >> doing forgets

logout_with_iff :
    (sdk : AccountManager) (operation : Operation) (preserve : Bool) (p : Promise Done)
    (stored : Stored)
    → let run = logout_with sdk operation preserve p in
      (run.result ≡ resolved done ↔ ((preserve ≡ true) ⊎ IsGone p))
      × (file_after run.effects (some stored) ≡ none ↔ ((preserve ≡ true) ⊎ IsGone p))
unfolding patched forgets_if_unauthorized file_after
logout_with_iff sdk operation true p stored = ground arith
logout_with_iff sdk operation false (resolved done) stored = ground arith
logout_with_iff sdk operation false (rejected e) stored = ground arith
logout_with_iff sdk operation false pending stored = ground arith

-- With a connection, logging out succeeds, and deletes the connection file, exactly when the access
-- key is to be preserved or the session is gone.
pub logout_iff :
    (env : Environment) (sdk : AccountManager) (connection stored : Stored)
    → let run = run_logout env (some connection) sdk in
      let is_over =
        (is_set connection.preserve_access_key_on_logout ≡ true)
        ⊎ IsGone (env.send sdk (Endpoints.remove_session env.hostname)) in
      (run.result ≡ resolved done ↔ is_over)
      × (file_after run.effects (some stored) ≡ none ↔ is_over)
unfolding run_logout call
logout_iff env sdk connection stored = logout_with_iff sdk _ _ _ stored
