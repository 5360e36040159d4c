-- ===== src/Executor/Deployments/Created.antt =====
-- What `appAdd` and `deploymentAdd` create.
use mathlib.Core.Option.{some-injective}
use code_push.Common.{
  ◌≡◌, ◌↔◌, refl, sym, String, Bool, true, false, Option, none, some, [], ◌∷◌, eq_iff,
  if◌then◌else◌,
}
use code_push.Common.Text.{to_lower}
use code_push.Common.Promise.{Done, done, Failure, Promise, resolved, rejected, pending}
use code_push.Management.{AccountManager}
use code_push.Management.Endpoints
use code_push.Executor.{Effect, calls, forgets, pure, ◌>>◌}
use code_push.Executor.Sdk.{Environment, call, patched, forgets_if_unauthorized, has_status}
use code_push.Executor.Listing.{deployment_list}
use code_push.Executor.Prompt.{throw_for_invalid_output_format}
use code_push.Executor.Account.{os_name, platform_name}
use code_push.Executor.Deployments.{deployment_add, add_defaults}

-- `deployment add` with `default` creates Staging and then Production: where the second one fails,
-- the command is rejected with its error, and the first one stays.
pub deployment_add-rejected :
    (env : Environment) (sdk : AccountManager) (app : String) (name : Option String) (e : Failure)
    → env.send sdk (Endpoints.add_deployment app "Staging") ≡ resolved done
    → env.send sdk (Endpoints.add_deployment app "Production") ≡ rejected e
    → deployment_add env sdk app name (some true) ≡ record {
      effects =
          calls sdk (Endpoints.add_deployment app "Staging")
          ∷ calls sdk (Endpoints.add_deployment app "Production")
          ∷ (if has_status 401 e.status_code then forgets ∷ [] else []);
      result = rejected e;
    }
unfolding deployment_add add_defaults call patched forgets_if_unauthorized
deployment_add-rejected env sdk app name e first second = rw (first, second) refl

three_iff :
    (s t l : Effect) (p q r : Promise Done)
    → (do patched s p; patched t q; patched l r; pure done).result ≡ resolved done
      ↔ ((p ≡ resolved done) × (q ≡ resolved done) × (r ≡ resolved done))
unfolding patched
three_iff s t l (rejected e) q r = (λ h. cc, λ h. cc)
three_iff s t l pending q r = (λ h. cc, λ h. cc)
three_iff s t l (resolved done) (rejected e) r = (λ h. cc, λ h. cc)
three_iff s t l (resolved done) pending r = (λ h. cc, λ h. cc)
three_iff s t l (resolved done) (resolved done) (rejected e) = (λ h. cc, λ h. cc)
three_iff s t l (resolved done) (resolved done) pending = (λ h. cc, λ h. cc)
three_iff s t l (resolved done) (resolved done) (resolved done) =
    (λ h. (refl, refl, refl), λ h. refl)

-- `deployment add` succeeds with `default` exactly when the requests for Staging, for Production and
-- for the list of deployments do, and without it exactly when the request for the deployment does.
pub deployment_add_iff :
    (env : Environment) (sdk : AccountManager) (app deployment : String) (name : Option String)
    → ((deployment_add env sdk app name (some true)).result ≡ resolved done ↔ (
        (env.send sdk (Endpoints.add_deployment app "Staging") ≡ resolved done)
        × (env.send sdk (Endpoints.add_deployment app "Production") ≡ resolved done)
        × (env.send sdk (Endpoints.get_deployments app) ≡ resolved done)))
      × ((deployment_add env sdk app (some deployment) none).result ≡ resolved done
          ↔ (env.send sdk (Endpoints.add_deployment app deployment) ≡ resolved done))
unfolding deployment_add add_defaults call patched deployment_list throw_for_invalid_output_format
deployment_add_iff env sdk app deployment name = (three_iff _ _ _ _ _ _, (λ h. h, λ h. h))

-- One of three names is found, by one of three tests.
one_of_three :
    (os : String) (a b c : Bool) (name : String)
    → (a ≡ true → os ≡ "ios")
    → (b ≡ true → os ≡ "android")
    → (c ≡ true → os ≡ "windows")
    → (if a then some "iOS" else if b then some "Android" else if c then some "Windows" else none)
      ≡ some name
    → (to_lower name ≡ os) × (os_name name ≡ some name)
unfolding os_name to_lower
one_of_three os true b c name f g k h = rw (sym (some-injective _ _ h)) (sym (f refl), refl)
one_of_three os false true c name f g k h = rw (sym (some-injective _ _ h)) (sym (g refl), refl)
one_of_three os false false true name f g k h = rw (sym (some-injective _ _ h)) (sym (k refl), refl)
one_of_three os false false false name f g k h = cc

one_of_two :
    (platform : String) (a b : Bool) (name : String)
    → (a ≡ true → platform ≡ "react-native")
    → (b ≡ true → platform ≡ "cordova")
    → (if a then some "React-Native" else if b then some "Cordova" else none) ≡ some name
    → (to_lower name ≡ platform) × (platform_name name ≡ some name)
unfolding platform_name to_lower
one_of_two platform true b name f g h = rw (sym (some-injective _ _ h)) (sym (f refl), refl)
one_of_two platform false true name f g h = rw (sym (some-injective _ _ h)) (sym (g refl), refl)
one_of_two platform false false name f g h = cc

-- The names that `app add` sends for the operating system and the platform are those of the command
-- but for the case of their letters, and they are found again for themselves.
pub names-canonical :
    (os platform os_found platform_found : String)
    → os_name os ≡ some os_found
    → platform_name platform ≡ some platform_found
    → (to_lower os_found ≡ to_lower os)
      × (os_name os_found ≡ some os_found)
      × (to_lower platform_found ≡ to_lower platform)
      × (platform_name platform_found ≡ some platform_found)
unfolding os_name platform_name
names-canonical os platform os_found platform_found h k =
    let (same, again) =
      one_of_three (to_lower os) _ _ _ os_found (eq_iff _ _).0 (eq_iff _ _).0 (eq_iff _ _).0 h in
    let (like, twice) =
      one_of_two (to_lower platform) _ _ platform_found (eq_iff _ _).0 (eq_iff _ _).0 k in
    (same, again, like, twice)
