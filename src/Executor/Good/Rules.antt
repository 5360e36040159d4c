-- ===== src/Executor/Good/Rules.antt =====
-- The rules by which the two properties go from the parts of a run to the run.
use code_push.Common.{
  ◌≡◌, ◌≢◌, ◌⊎◌, refl, String, Bool, true, false, Option, none, some, List, [], ◌∷◌, ◌++◌,
  if◌then◌else◌, inl, inr, arith,
}
use code_push.Common.Promise.{Done, Failure, Promise, resolved, rejected, pending}
use code_push.Management.{AccountManager, Operation}
use code_push.Executor.{
  Effect, calls, checks, uploads, forgets, runs, creates, deletes, Upload, Run, pure, throwing,
  settling, given, or_rethrow, or_throw, guard, doing, catching, ◌>>=◌, ◌>>◌, after, handled,
}
use code_push.Executor.Sdk.{
  Environment, call, is_authenticated, upload, patched, forgets_if_unauthorized,
}
use code_push.Executor.Listing.{all, both}
use code_push.Executor.Prompt.{confirm}
use code_push.Executor.Good.{IsSettled, IsReliable, All, IsGood, Permits}

All-append : (P : Effect → Type 0) (k l : List Effect) → All P k → All P l → All P (k ++ l)
All-append P [] l p q = q
All-append P (effect ∷ k) l (p, ps) q = (p, All-append P k l ps q)

module _ (P : Effect → Type 0) (env : Environment) where
  pub pure-IsGood : {A : Type 0} (a : A) → IsGood P env (pure a)
  pure-IsGood a = record { all_of = tt; ends = λ r. tt }

  pub throwing-IsGood : {A : Type 0} (e : Failure) → IsGood P env (throwing {A = A} e)
  throwing-IsGood e = record { all_of = tt; ends = λ r. tt }

  pub settling-IsGood :
      {A : Type 0} (p : Promise A) → (IsReliable env → IsSettled p) → IsGood P env (settling p)
  settling-IsGood p h = record { all_of = tt; ends = h }

  pub or_throw-IsGood : {A : Type 0} (o : Option A) (e : Failure) → IsGood P env (or_throw o e)
  or_throw-IsGood none e = throwing-IsGood e
  or_throw-IsGood (some a) e = pure-IsGood a

  pub or_rethrow-IsGood : {A : Type 0} (x : Failure ⊎ A) → IsGood P env (or_rethrow x)
  or_rethrow-IsGood (inl e) = throwing-IsGood e
  or_rethrow-IsGood (inr a) = pure-IsGood a

  pub guard-IsGood : (b : Bool) (e : Failure) → IsGood P env (guard b e)
  guard-IsGood true e = record { all_of = tt; ends = λ r. tt }
  guard-IsGood false e = record { all_of = tt; ends = λ r. tt }

  pub doing-IsGood : (effect : Effect) → P effect → IsGood P env (doing effect)
  doing-IsGood effect h = record { all_of = (h, tt); ends = λ r. tt }

  after-IsGood :
      {A B : Type 0} (effects : List Effect) (p : Promise A) (k : A → Run B)
      → All P effects
      → (IsReliable env → IsSettled p)
      → ((a : A) → IsGood P env (k a))
      → IsGood P env (after effects p k)
  after-IsGood effects (resolved a) k h ends next = record {
    all_of = All-append P effects _ h (next a).all_of;
    ends = (next a).ends;
  }
  after-IsGood effects (rejected e) k h ends next = record { all_of = h; ends = λ r. tt }
  after-IsGood effects pending k h ends next = record { all_of = h; ends = ends }

  pub >>=-IsGood :
      {A B : Type 0} (run : Run A) (k : A → Run B)
      → IsGood P env run
      → ((a : A) → IsGood P env (k a))
      → IsGood P env (run >>= k)
  >>=-IsGood run k h next = after-IsGood run.effects run.result k h.all_of h.ends next

  -- The rest of a run may rest on what its first part resolved with.
  pub next-IsGood :
      {A B : Type 0} (run : Run A) (k : A → Run B)
      → IsGood P env run
      → ((a : A) → run.result ≡ resolved a → IsGood P env (k a))
      → IsGood P env (run >>= k)
  next-IsGood run k h next = go run.effects run.result h.all_of h.ends next
    where
      go :
          (effects : List Effect) (p : Promise _)
          → All P effects
          → (IsReliable env → IsSettled p)
          → ((a : _) → p ≡ resolved a → IsGood P env (k a))
          → IsGood P env (after effects p k)
      go effects (resolved a) h ends next =
          let rest = next a refl in
          record { all_of = All-append P effects _ h rest.all_of; ends = rest.ends }
      go effects (rejected e) h ends next = record { all_of = h; ends = λ r. tt }
      go effects pending h ends next = record { all_of = h; ends = ends }

  pub guarded-IsGood :
      (b : Bool) (e : Failure) (run : Run Done)
      → (b ≡ true → IsGood P env run)
      → IsGood P env (guard b e >> run)
  guarded-IsGood true e run h = h refl
  guarded-IsGood false e run h = throwing-IsGood e

  pub found-IsGood :
      {A B : Type 0} (o : Option A) (e : Failure) (k : A → Run B)
      → ((a : A) → o ≡ some a → IsGood P env (k a))
      → IsGood P env (or_throw o e >>= k)
  found-IsGood none e k next = throwing-IsGood e
  found-IsGood (some a) e k next = next a refl

  handled-IsGood :
      {A : Type 0} (effects : List Effect) (p : Promise A) (k : Failure → Run A)
      → All P effects
      → (IsReliable env → IsSettled p)
      → ((e : Failure) → IsGood P env (k e))
      → IsGood P env (handled effects p k)
  handled-IsGood effects (resolved a) k h ends next = record { all_of = h; ends = λ r. tt }
  handled-IsGood effects (rejected e) k h ends next = record {
    all_of = All-append P effects _ h (next e).all_of;
    ends = (next e).ends;
  }
  handled-IsGood effects pending k h ends next = record { all_of = h; ends = ends }

  pub catching-IsGood :
      {A : Type 0} (run : Run A) (k : Failure → Run A)
      → IsGood P env run
      → ((e : Failure) → IsGood P env (k e))
      → IsGood P env (catching run k)
  catching-IsGood run k h next = handled-IsGood run.effects run.result k h.all_of h.ends next

  pub if-IsGood :
      {A : Type 0} (b : Bool) (p q : Run A)
      → IsGood P env p
      → IsGood P env q
      → IsGood P env (if b then p else q)
  if-IsGood true p q h k = h
  if-IsGood false p q h k = k

  pub given-IsGood :
      {A B : Type 0} (o : Option A) (p : Run B) (k : A → Run B)
      → IsGood P env p
      → ((a : A) → IsGood P env (k a))
      → IsGood P env (given o p k)
  given-IsGood none p k h next = h
  given-IsGood (some a) p k h next = next a

  abbrev pub AllGood : List (Run Done) → Type 0
  AllGood [] = Unit
  AllGood (run ∷ others) = IsGood P env run × AllGood others

  both-IsSettled :
      (p q : Promise Done)
      → (IsReliable env → IsSettled p)
      → (IsReliable env → IsSettled q)
      → IsReliable env
      → IsSettled (both p q)
  both-IsSettled (resolved u) q h k r = k r
  both-IsSettled (rejected e) q h k r = tt
  both-IsSettled pending q h k r = absurd (h r)

  pub all-IsGood : (l : List (Run Done)) → AllGood l → IsGood P env (all l)
  unfolding all
  all-IsGood [] h = record { all_of = tt; ends = λ r. tt }
  all-IsGood (run ∷ others) (p, h) =
      let rest = all-IsGood others h in
      record {
        all_of = All-append P run.effects _ p.all_of rest.all_of;
        ends = both-IsSettled run.result _ p.ends rest.ends;
      }

module _ (P : Effect → Type 0) (env : Environment) (sdk : AccountManager)
    (permits : Permits P sdk) where
  patched-IsGood :
      {A : Type 0} (effect : Effect) (p : Promise A)
      → P effect
      → (IsReliable env → IsSettled p)
      → IsGood P env (patched effect p)
  unfolding patched forgets_if_unauthorized
  patched-IsGood effect (resolved a) h ends = record { all_of = (h, tt); ends = ends }
  patched-IsGood effect (rejected e) h ends =
      let forget = permits.forget in record { all_of = (h, ground arith); ends = ends }
  patched-IsGood effect pending h ends = record { all_of = (h, tt); ends = ends }

  pub call-IsGood : (operation : Operation) → IsGood P env (call env sdk operation)
  unfolding call
  call-IsGood operation =
      patched-IsGood (calls sdk operation) _ (permits.call operation) (λ r. r.send sdk operation)

  pub is_authenticated-IsGood : (throws : Bool) → IsGood P env (is_authenticated env sdk throws)
  unfolding is_authenticated
  is_authenticated-IsGood throws =
      patched-IsGood (checks sdk throws) _ (permits.check throws) (λ r. r.check sdk throws)

  pub upload-IsGood : (u : Upload) → P (uploads sdk u) → IsGood P env (upload env sdk u)
  unfolding upload
  upload-IsGood u h = patched-IsGood (uploads sdk u) _ h (λ r. r.upload sdk u)

  pub forgetting-IsGood : IsGood P env (doing forgets)
  forgetting-IsGood = doing-IsGood P env forgets permits.forget

  pub running-IsGood : (command : List String) → IsGood P env (doing (runs command))
  running-IsGood command = doing-IsGood P env (runs command) (permits.run command)

  pub creating-IsGood : (folder : String) → IsGood P env (doing (creates folder))
  creating-IsGood folder = doing-IsGood P env (creates folder) (permits.create folder)

  pub deleting-IsGood : (folder : String) → IsGood P env (doing (deletes folder))
  deleting-IsGood folder = doing-IsGood P env (deletes folder) (permits.delete folder)

module _ (P : Effect → Type 0) (env : Environment) where
  confirm-IsSettled : (answer : Option (Option String)) → answer ≢ none → IsSettled (confirm answer)
  unfolding confirm
  confirm-IsSettled none h = absurd (h refl)
  confirm-IsSettled (some none) h = tt
  confirm-IsSettled (some (some response)) h = tt

  pub asking-IsGood : IsGood P env (settling (confirm env.answer))
  asking-IsGood = settling-IsGood P env _ (λ r. confirm-IsSettled env.answer r.answered)

  pub deletion-IsGood : (folder : String) → IsGood P env (settling (env.delete folder))
  deletion-IsGood folder = settling-IsGood P env _ (λ r. r.delete folder)

  pub exit-IsGood : (command : List String) → IsGood P env (settling (env.react.exit_code command))
  exit-IsGood command = settling-IsGood P env _ (λ r. r.exit command)

  pub log-IsGood : (command : List String) → IsGood P env (settling (env.debug.log_ends command))
  log-IsGood command = settling-IsGood P env _ (λ r. r.log command)

pub ruleset good = (
  pure-IsGood, throwing-IsGood, or_throw-IsGood, or_rethrow-IsGood, guard-IsGood, >>=-IsGood,
  catching-IsGood, if-IsGood, given-IsGood, all-IsGood, call-IsGood, is_authenticated-IsGood,
  upload-IsGood, forgetting-IsGood, running-IsGood, creating-IsGood, deleting-IsGood, asking-IsGood,
  deletion-IsGood, exit-IsGood, log-IsGood,
)
