-- ===== src/Executor/Execute/Session/Login.antt =====
-- `login` and `register`: what they save, and what the next command makes of it.
use code_push.Common.{
  ◌≡◌, ◌≢◌, refl, ◌∙◌, String, Bool, true, false, Option, none, some, List, [], ◌∷◌, ◌⊎◌, inl, inr,
  arith,
}
use code_push.Common.Promise.{Done, done, Failure, Promise, resolved, rejected, pending}
use code_push.Management.{AccountManager, new_account_manager}
use code_push.Executor.{Stored, checks, saves, Run, pure, guard, or_rethrow, doing, ◌>>=◌, ◌>>◌}
use code_push.Executor.Sdk.{
  Environment, get_sdk, get_proxy, is_authenticated, patched, forgets_if_unauthorized,
}
use code_push.Executor.Connection.{
  truthy, deserialize_connection_info, serialize_connection_info, file_after,
}
use code_push.Executor.Login.{check_and_save}
use code_push.Executor.Execute.{must_be_logged_in}

-- The server knows the key of the SDK that the next command makes of the file.
abbrev pub IsKnown : Environment → Stored → Type 0
IsKnown env stored =
    (sdk : AccountManager) × (must_be_logged_in env (deserialize_connection_info env (some stored))
        none
      ≡ pure (some sdk))
    × (env.key_is_valid sdk false ≡ resolved true)

-- The end of `check_and_save`, where the server has answered.
after_check :
    (p : Promise Bool) (sdk : AccountManager) (stored : Stored) (refusal : Failure)
    → let run =
        patched (checks sdk false) p >>= λ known. guard known refusal >> doing (saves stored) in
      ((file_after run.effects none ≡ none) × (run.result ≢ resolved done))
      ⊎ ((file_after run.effects none ≡ some stored) × (p ≡ resolved true))
unfolding patched file_after forgets_if_unauthorized
after_check (resolved true) sdk stored refusal = inr (refl, refl)
after_check (resolved false) sdk stored refusal = inl (refl, λ h. cc)
after_check (rejected e) sdk stored refusal = inl (ground arith)
after_check pending sdk stored refusal = inl (refl, λ h. cc)

-- No URL of the server and an empty one are the same.
new_account_manager-truthy :
    (key : String) (headers : List (String × String)) (server_url proxy : Option String)
    → new_account_manager key headers (truthy server_url) proxy
      ≡ new_account_manager key headers server_url proxy
unfolding new_account_manager
new_account_manager-truthy key headers none proxy = refl
new_account_manager-truthy key headers (some url) proxy = ground arith

module _ (env : Environment) (key : String) (preserve : Bool) (server_url proxy : Option String)
    (no_proxy : Option Bool) where
  abbrev stored : Stored
  stored = serialize_connection_info key preserve server_url proxy no_proxy

  -- The SDK of the check.
  abbrev manager : Failure ⊎ AccountManager
  manager =
      new_account_manager key (("X-CodePush-CLI-Version", env.cli_version) ∷ []) server_url
        (get_proxy env proxy no_proxy)

  connects-serialize :
      must_be_logged_in env (deserialize_connection_info env (some stored)) none
      ≡ (or_rethrow manager >>= λ sdk. pure (some sdk))
  unfolding deserialize_connection_info serialize_connection_info get_sdk
  connects-serialize =
      rw
        (new_account_manager-truthy key (("X-CodePush-CLI-Version", env.cli_version) ∷ [])
          server_url (get_proxy env proxy no_proxy))
        refl

  after_manager :
      (x : Failure ⊎ AccountManager) (refusal : Failure)
      → let run : Run Done = (do
        sdk ← or_rethrow x
        known ← patched (checks sdk false) (env.key_is_valid sdk false)
        guard known refusal
        doing (saves stored)) in
        ((file_after run.effects none ≡ none) × (run.result ≢ resolved done))
        ⊎ ((file_after run.effects none ≡ some stored)
            × (sdk : AccountManager) × (x ≡ inr sdk)
            × (env.key_is_valid sdk false ≡ resolved true))
  unfolding file_after
  after_manager (inl e) refusal = inl (refl, λ h. cc)
  after_manager (inr sdk) refusal =
      elim (after_check (env.key_is_valid sdk false) sdk stored refusal) [
        | inl kept ↦ inl kept
        | inr saved ↦ inr (saved.0, sdk, refl, saved.1)
      ]

  -- Either nothing is saved, or a key that the server knows.
  pub check_and_save-cases :
      (refusal : Failure)
      → let run = check_and_save env key preserve server_url proxy no_proxy refusal in
        ((file_after run.effects none ≡ none) × (run.result ≢ resolved done))
        ⊎ ((file_after run.effects none ≡ some stored) × IsKnown env stored)
  unfolding check_and_save is_authenticated get_sdk
  check_and_save-cases refusal = elim (after_manager manager refusal) [
    | inl kept ↦ inl kept
    | inr (saved, sdk, made, known) ↦ inr (saved, (sdk, connects-serialize ∙ rw made refl, known))
  ]
