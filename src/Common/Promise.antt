-- ===== src/Common/Promise.antt =====
-- Promises of the library q, as the value with which they settle, if they ever do.
use code_push.Common.{ℕ, String, Bool, true, false, Option, none, ◌≡◌, refl, ◌⊎◌, inl, inr, arith}

-- What a promise is rejected with: an `Error`, or a `CodePushError` with its status code.
pub record Failure : Type 0 where
  pub message : String
  pub status_code : Option ℕ

-- `new Error(message)`
abbrev pub error : String → Failure
error s = record { message = s; status_code = none }

-- The value of a promise that has none.
pub data Done : Type 0 where
  done : Done

pub data Promise {ℓ} (A : Type ℓ) : Type ℓ where
  resolved : A → Promise A
  rejected : Failure → Promise A
  pending : Promise A

infixl 5 ◌>>=◌ ◌>>◌
-- `then` with one handler
abbrev pub ◌>>=◌ {ℓ κ} : {A : Type ℓ} {B : Type κ} → Promise A → (A → Promise B) → Promise B
resolved a >>= f = f a
rejected e >>= f = rejected e
pending >>= f = pending

abbrev pub ◌>>◌ {ℓ κ} : {A : Type ℓ} {B : Type κ} → Promise A → Promise B → Promise B
p >> q = p >>= λ _. q

-- `deferred.promise.isPending()`
abbrev pub is_pending {ℓ} : {A : Type ℓ} → Promise A → Bool
is_pending (resolved a) = false
is_pending (rejected e) = false
is_pending pending = true

-- A deferred settles once: later calls of `resolve` and `reject` change nothing.
abbrev pub settle {ℓ} : {A : Type ℓ} → Promise A → Promise A → Promise A
settle (resolved a) q = resolved a
settle (rejected e) q = rejected e
settle pending q = q

-- `promise.catch(handler)`
abbrev pub catch {ℓ} : {A : Type ℓ} → Promise A → (Failure → Promise A) → Promise A
catch (resolved a) f = resolved a
catch (rejected e) f = f e
catch pending f = pending

-- Inversion of a chain that was resolved.
pub >>=-eq-resolved {ℓ κ} :
    {A : Type ℓ} {B : Type κ} (p : Promise A) (f : A → Promise B) {b : B}
    → (p >>= f) ≡ resolved b
    → (a : A) × (p ≡ resolved a) × (f a ≡ resolved b)
>>=-eq-resolved (resolved a) f h = (a, refl, h)
>>=-eq-resolved (rejected e) f h = cc
>>=-eq-resolved pending f h = cc

pub >>=-eq-rejected {ℓ κ} :
    {A : Type ℓ} {B : Type κ} (p : Promise A) (f : A → Promise B) {e : Failure}
    → (p >>= f) ≡ rejected e
    → (p ≡ rejected e) ⊎ ((a : A) × (p ≡ resolved a) × (f a ≡ rejected e))
>>=-eq-rejected (resolved a) f h = inr (a, refl, h)
>>=-eq-rejected (rejected e) f h = inl (ground arith)
>>=-eq-rejected pending f h = cc
