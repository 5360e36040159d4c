-- ===== src/Executor/Good/Uploads.antt =====
-- What holds where a package is uploaded.
use code_push.Common.{
  ℕ, ◌≡◌, refl, String, Bool, true, not, Option, none, some, List, [], ◌∷◌, arith, eqb,
}
use code_push.Common.Text.{to_lower}
use code_push.Common.Promise.{Done, done, Promise, resolved, rejected, pending}
use code_push.Management.{AccountManager}
use code_push.Executor.{Effect, uploads, runs, Upload, Run, settling, ◌>>=◌, ◌>>◌}
use code_push.Executor.Sdk.{Environment, is_set, patched}
use code_push.Executor.Prompt.{throw_for_invalid_semver_range}
use code_push.Executor.Deployments.{release_error_handler}
use code_push.Executor.Release.{
  ReleaseCommand, release, check_and_upload, upload_of, is_binary_or_zip,
}
use code_push.Executor.Cordova
use code_push.Executor.React
use code_push.Executor.Good.{All, IsGood, Permits}
use code_push.Executor.Good.Rules.{
  >>=-IsGood, next-IsGood, guarded-IsGood, found-IsGood, throwing-IsGood, pure-IsGood, if-IsGood,
  catching-IsGood, is_authenticated-IsGood, upload-IsGood, guard-IsGood, running-IsGood,
  deleting-IsGood, creating-IsGood, deletion-IsGood, doing-IsGood, exit-IsGood,
}
use code_push.Executor.Good.Commands.{
  validate_deployment-IsGood, is_parsed-IsGood, target_version-IsGood, release-IsGood,
}
use code_push.Executor.Good.Releases.{project_name-IsGood, entry_file-IsGood, app_version-IsGood}

-- Every upload has a property; other effects are free.
abbrev pub OfUploads : (Upload → Type 0) → Effect → Type 0
OfUploads U (uploads sdk u) = U u
OfUploads U _ = Unit

permits : (U : Upload → Type 0) (sdk : AccountManager) → Permits (OfUploads U) sdk
permits U sdk = record {
  call = λ operation. tt;
  check = λ throws. tt;
  forget = tt;
  run = λ command. tt;
  create = λ folder. tt;
  delete = λ folder. tt;
}

patched-result : {A : Type 0} (effect : Effect) (p : Promise A) → (patched effect p).result ≡ p
unfolding patched
patched-result effect p = refl

-- The package of the command, if its path is of no archive or binary, its target version is valid,
-- and the server knows the key.
abbrev pub IsChecked : Environment → AccountManager → ReleaseCommand → Upload → Type 0
IsChecked env sdk r u =
    (u ≡ upload_of r)
    × (not (is_binary_or_zip r.package_path) ≡ true)
    × (env.valid_range r.info.app_store_version ≡ true)
    × ((known : Bool) × (env.key_is_valid sdk true ≡ resolved known))

-- Rules by which a later part of a run may rest on an earlier one.
ruleset steps = (
  guarded-IsGood, found-IsGood, catching-IsGood, next-IsGood, guard-IsGood, throwing-IsGood,
  is_authenticated-IsGood, upload-IsGood, permits,
)

module _ (env : Environment) (sdk : AccountManager) where
  release-IsGood-IsChecked :
      (r : ReleaseCommand) → IsGood (OfUploads (IsChecked env sdk r)) env (release env sdk r)
  unfolding release throw_for_invalid_semver_range check_and_upload release_error_handler
  release-IsGood-IsChecked r = search steps depth 16

  -- Every upload of `release` is of the command's package, and where there is one, the path is of no
  -- archive or binary, the target version is a valid range, and the check of the key was resolved.
  pub release-IsChecked :
      (r : ReleaseCommand) → All (OfUploads (IsChecked env sdk r)) (release env sdk r).effects
  release-IsChecked r = (release-IsGood-IsChecked r).all_of

-- The platform's folder, after the build of the project has succeeded.
abbrev pub IsBuilt : Environment → Cordova.CordovaCommand → Upload → Type 0
IsBuilt env c u =
    (Cordova.output_folder env (to_lower c.platform) ≡ some u.path)
    × ((cli : String) × (Cordova.cordova_cli env ≡ some cli)
        × (env.cordova.succeeds
              (cli ∷ Cordova.cordova_command c ∷ to_lower c.platform ∷ "--verbose" ∷ [])
            ≡ true))

-- The child process has ended, without an exit code or with 0.
abbrev pub EndsWell : Promise (Option ℕ) → Type 0
EndsWell (resolved none) = Unit
EndsWell (resolved (some exit_code)) = eqb exit_code 0 ≡ true
EndsWell (rejected e) = ⊥
EndsWell pending = ⊥

-- The output folder, after the bundler has ended well for some bundle and entry file.
abbrev pub IsBundled : Environment → React.ReactCommand → Upload → Type 0
IsBundled env c u =
    (u.path ≡ React.output_folder env c)
    × ((bundle entry : String) × EndsWell (
          env.react.exit_code (
            "node"
            ∷ React.bundle_arguments env bundle (is_set c.options.development) entry
                (React.output_folder env c) (to_lower c.platform)
                (React.sourcemap_output env c bundle))))

check_exit-IsGood :
    (P : Effect → Type 0) (env : Environment) (exit_code : Option ℕ)
    → IsGood P env (React.check_exit exit_code)
check_exit-IsGood P env none = pure-IsGood P env done
check_exit-IsGood P env (some exit_code) = guard-IsGood P env _ _

check_exit-EndsWell :
    (p : Promise (Option ℕ)) (u : Done)
    → (settling p >>= React.check_exit).result ≡ resolved u
    → EndsWell p
check_exit-EndsWell (resolved none) u h = tt
check_exit-EndsWell (resolved (some exit_code)) u h = ground arith
check_exit-EndsWell (rejected e) u h = cc
check_exit-EndsWell pending u h = cc

module _ (env : Environment) (sdk : AccountManager) where
  release-IsBuilt :
      (c : Cordova.CordovaCommand) (r : ReleaseCommand) (cli : String)
      → Cordova.output_folder env (to_lower c.platform) ≡ some r.package_path
      → Cordova.cordova_cli env ≡ some cli
      → env.cordova.succeeds
          (cli ∷ Cordova.cordova_command c ∷ to_lower c.platform ∷ "--verbose" ∷ [])
        ≡ true
      → IsGood (OfUploads (IsBuilt env c)) env (release env sdk r)
  release-IsBuilt c r cli f g built =
      release-IsGood _ env sdk (permits (IsBuilt env c) sdk) r (f, (cli, g, built))

  release_cordova-IsGood-IsBuilt :
      (c : Cordova.CordovaCommand)
      → IsGood (OfUploads (IsBuilt env c)) env (Cordova.release_cordova env sdk c)
  unfolding Cordova.release_cordova throw_for_invalid_semver_range
  release_cordova-IsGood-IsBuilt c =
      let P = OfUploads (IsBuilt env c) in
      let p = permits (IsBuilt env c) sdk in
      search
        (
          found-IsGood,
          guarded-IsGood,
          next-IsGood,
          running-IsGood P env sdk p,
          validate_deployment-IsGood P env sdk p,
          is_parsed-IsGood P env sdk p,
          target_version-IsGood P env sdk p,
          release-IsBuilt,
        )
        depth 20

  -- Every upload of `release_cordova` is of the platform's folder, and where
  -- there is one, the CLI that was found has built or prepared the project without an error.
  pub release_cordova-IsBuilt :
      (c : Cordova.CordovaCommand)
      → All (OfUploads (IsBuilt env c)) (Cordova.release_cordova env sdk c).effects
  release_cordova-IsBuilt c = (release_cordova-IsGood-IsBuilt c).all_of

  -- The rest of `release_react` may rest on how the bundler ended.
  bundled-IsGood :
      (P : Effect → Type 0) (bundle entry folder platform : String) (development : Bool)
      (sourcemap : Option String) (rest : Run Done)
      → ((command : List String) → P (runs command))
      → (EndsWell (
            env.react.exit_code (
              "node"
              ∷ React.bundle_arguments env bundle development entry folder platform sourcemap))
          → IsGood P env rest)
      → IsGood P env (
          React.run_react_native_bundle_command env bundle development entry folder platform
            sourcemap
          >> rest)
  unfolding React.run_react_native_bundle_command
  bundled-IsGood P bundle entry folder platform development sourcemap rest running h =
      let run =
        React.run_react_native_bundle_command env bundle development entry folder platform
          sourcemap in
      next-IsGood P env run _ (search (>>=-IsGood, doing-IsGood, exit-IsGood, check_exit-IsGood))
        (λ u k. h (check_exit-EndsWell _ u k))

  release-IsBundled :
      (c : React.ReactCommand) (r : ReleaseCommand) (bundle entry : String)
      → r.package_path ≡ React.output_folder env c
      → EndsWell (
          env.react.exit_code (
            "node"
            ∷ React.bundle_arguments env bundle
                (is_set c.options.development)
                entry
                (React.output_folder env c)
                (to_lower c.platform)
                (React.sourcemap_output env c bundle)))
      → IsGood (OfUploads (IsBundled env c)) env (release env sdk r)
  release-IsBundled c r bundle entry f ended =
      release-IsGood _ env sdk (permits (IsBundled env c) sdk) r (f, (bundle, entry, ended))

  release_react-IsGood-IsBundled :
      (c : React.ReactCommand)
      → IsGood (OfUploads (IsBundled env c)) env (React.release_react env sdk c)
  unfolding React.release_react React.bundle_and_release React.create_empty_temp_release_folder
      React.delete_folder
  release_react-IsGood-IsBundled c =
      let P = OfUploads (IsBundled env c) in
      let p = permits (IsBundled env c) sdk in
      search
        (
          found-IsGood,
          bundled-IsGood P,
          next-IsGood,
          catching-IsGood,
          running-IsGood P env sdk p,
          validate_deployment-IsGood P env sdk p,
          project_name-IsGood P env sdk p,
          entry_file-IsGood P env sdk p,
          app_version-IsGood P env sdk p,
          creating-IsGood P env sdk p,
          deleting-IsGood P env sdk p,
          deletion-IsGood P env,
          guarded-IsGood,
          if-IsGood,
          throwing-IsGood,
          pure-IsGood,
          release-IsBundled c,
        )
        depth 30

  -- Every upload of `release_react` is of the output folder, and where there is one, the bundler has
  -- ended for some bundle and entry file, with the exit code 0 or without one.
  pub release_react-IsBundled :
      (c : React.ReactCommand)
      → All (OfUploads (IsBundled env c)) (React.release_react env sdk c).effects
  release_react-IsBundled c = (release_react-IsGood-IsBundled c).all_of
