-- ===== src/Management/Request/Laws.antt =====
-- When a call of the management API succeeds, when it never settles, and with which headers it is
-- sent.
use code_push.Common.{
  ◌≡◌, ◌≢◌, refl, sym, ◌↔◌, ◌<>◌, String, Bool, true, false, Option, none, some, List, [], ◌∷◌,
  ◌++◌, arith, if◌then◌else◌, ◌==◌, eq_iff,
}
use code_push.Management.{AccountManager}
use code_push.Management.Request.{
  RequestError, Reply, resolves, crashes, get_error_status, get_code_push_error, on_authenticated,
  on_end, attach_credentials,
}

module _ {J : Type 0} where
  -- Without an error, with a response that is fine, and with a body where one is expected.
  abbrev pub Succeeds : Bool → Option RequestError → Option (Reply J) → Option J → Type 0
  Succeeds expect e none b = ⊥
  Succeeds expect e (some r) b =
      (e ≡ none) × (r.ok ≡ true) × (r.body ≡ b) × ((expect ≡ true) → b ≢ none)

  on_end_sound :
      (message_of : J → Option String) (expect : Bool) (e : Option RequestError)
      (r : Option (Reply J)) (b : Option J)
      → on_end message_of expect e r ≡ resolves b
      → Succeeds expect e r b
  unfolding on_end get_code_push_error
  on_end_sound message_of expect (some e) none b h = ground arith
  on_end_sound message_of expect (some e) (some r) b h = ground arith
  on_end_sound message_of expect none none b h = ground arith
  on_end_sound message_of expect none (some r) b h = ground arith

  on_end_complete :
      (message_of : J → Option String) (expect : Bool) (e : Option RequestError)
      (r : Option (Reply J)) (b : Option J)
      → Succeeds expect e r b
      → on_end message_of expect e r ≡ resolves b
  unfolding on_end
  on_end_complete message_of expect e none b h = absurd h
  on_end_complete message_of expect (some e) (some r) b h = ground arith
  on_end_complete message_of expect none (some r) none h = ground arith
  on_end_complete message_of expect none (some r) (some b) h = ground arith

  -- A request resolves with a body exactly when there is no error, the response is fine and has
  -- that body, and the body is there if one is expected.
  pub on_end_iff :
      (message_of : J → Option String) (expect : Bool) (e : Option RequestError)
      (r : Option (Reply J)) (b : Option J)
      → (on_end message_of expect e r ≡ resolves b) ↔ Succeeds expect e r b
  on_end_iff message_of expect e r b =
      (on_end_sound message_of expect e r b, on_end_complete message_of expect e r b)

  -- The check of the access key, for every result that has a response:
  -- it gives true exactly for a response with the status 200 and no error, and it never settles
  -- exactly when unauthorised keys are to be rejected and there is another status without an
  -- error.
  pub on_authenticated_iff :
      (throw_if_unauthorized : Bool) (e : Option RequestError) (r : Reply J)
      → ((on_authenticated throw_if_unauthorized e (some r) ≡ resolves true)
          ↔ ((e ≡ none) × (r.status ≡ 200)))
        × ((on_authenticated throw_if_unauthorized e (some r) ≡ crashes)
            ↔ ((throw_if_unauthorized ≡ true) × (e ≡ none) × (r.status ≢ 200)))
  unfolding on_authenticated get_code_push_error get_error_status
  on_authenticated_iff throw_if_unauthorized none r = ground arith
  on_authenticated_iff throw_if_unauthorized (some e) r = ground arith

abbrev later_or : Option String → Bool → String → Option String
later_or (some later) same value = some later
later_or none same value = if same then some value else none

-- The value that the last call of `set` for the header gives it; names are compared after `norm`.
pub last_set : (String → String) → String → List (String × String) → Option String
last_set norm name [] = none
last_set norm name ((key, value) ∷ sets) =
    let later = last_set norm name sets in later_or later (norm key == norm name) value

same : (s : String) → (s == s) ≡ true
same s = ground (arith, eq_iff s s)

different : {s t : String} → s ≢ t → (s == t) ≡ false
different {s} {t} h = ground (arith, eq_iff s t)

last_set-append :
    (norm : String → String) (name : String) (k l : List (String × String)) (v : String)
    → last_set norm name l ≡ some v
    → last_set norm name (k ++ l) ≡ some v
unfolding last_set
last_set-append norm name [] l v h = h
last_set-append norm name ((key, value) ∷ k) l v h = rw (last_set-append norm name k l v h) refl

-- Whatever the custom headers are, and however names of headers are identified, as long as the
-- three names stay different, the credentials of the account manager are those that are sent.
pub last_set-attach_credentials :
    (norm : String → String) (version : String) (m : AccountManager)
    → norm "Accept" ≢ norm "Authorization"
    → norm "Accept" ≢ norm "X-CodePush-SDK-Version"
    → norm "Authorization" ≢ norm "X-CodePush-SDK-Version"
    → (last_set norm "Accept" (attach_credentials version m)
        ≡ some "application/vnd.code-push.v2+json")
      × (last_set norm "Authorization" (attach_credentials version m)
          ≡ some ("Bearer " <> m.access_key))
      × (last_set norm "X-CodePush-SDK-Version" (attach_credentials version m) ≡ some version)
unfolding attach_credentials last_set
last_set-attach_credentials norm version m p q r = (
  last_set-append norm "Accept" m.custom_headers _ _
      (rw (different (λ e. p (sym e)), different (λ e. q (sym e)), same (norm "Accept")) refl),
  last_set-append norm "Authorization" m.custom_headers _ _
      (rw (different (λ e. r (sym e)), different p, same (norm "Authorization")) refl),
  last_set-append norm "X-CodePush-SDK-Version" m.custom_headers _ _
      (rw (same (norm "X-CodePush-SDK-Version")) refl),
)
