-- ===== src/Acquisition/UpdateCheck/Laws.antt =====
-- What an update check asks for, and when it hands an update over.
use code_push.Common.{
  ℕ, ◌≡◌, ◌≢◌, refl, ◌↔◌, inl, inr, String, Bool, true, false, Option, none, some, List, ◌++◌, map,
  eqb, arith, eq_iff, ◌==◌, Bool-cases,
}
use code_push.Common.Json.{codes}
use code_push.Acquisition.{
  get, Package, UpdateInfo, Update, remote_package, Parsed, unparsable, update_info, Response,
  HttpResult, responded, Handled, invoke, requests, AcquisitionManager,
}
use code_push.Acquisition.Query.{query_stringify}
use code_push.Acquisition.Query.Laws.{parse_query, bytes_of, parse_query-query_stringify}
use code_push.Acquisition.UpdateCheck.{
  update_request, remote_of, on_update_response, query_update_with_current_package,
  query_with_version, on_parsed,
}

-- A check for a package with a version sends one GET request to "updateCheck" on the server, and a
-- server that reads its query has the six properties of the request with their values.
pub query_update_with_current_package_lem :
    (callback : Bool) (m : AcquisitionManager) (p : Package) (app_version : String)
    → p.app_version ≡ some app_version
    → app_version ≢ ""
    → (query : List ℕ) × (handler : HttpResult → Handled Update)
      × (query_update_with_current_package callback m (some p)
          ≡ requests get (codes m.server_url ++ codes "updateCheck?" ++ query) none handler)
      × (parse_query query ≡ map bytes_of (update_request m app_version p))
unfolding query_update_with_current_package
query_update_with_current_package_lem callback m p app_version e h =
    let full : (app_version == "") ≡ false = ground (arith, eq_iff app_version "") in
    (
      query_stringify (update_request m app_version p),
      (λ result. invoke callback (on_update_response m result)),
      rw (e, query_with_version, full) refl,
      parse_query-query_stringify ("deploymentKey", some m.deployment_key) _,
    )

-- The response offers the update: its status is 200, and its body has an `updateInfo` that is
-- available and asks for no new version of the app.
pub record Offers (m : AcquisitionManager) (r : Response) (offer : Update) : Type 0 where
  pub info : UpdateInfo
  pub ok : r.status_code ≡ 200
  pub parsed : r.parsed ≡ update_info (some info)
  pub same_version : info.update_app_version ≡ false
  pub available : info.is_available ≡ true
  pub offered : remote_of m info ≡ offer

module _ (m : AcquisitionManager) (p : Package) (url : Option String) where
  on_parsed_offer :
      (x : Parsed)
      → on_parsed m x ≡ (none, some (remote_package p url))
      → (u : UpdateInfo) × (x ≡ update_info (some u))
        × (u.update_app_version ≡ false)
        × (u.is_available ≡ true)
        × (remote_of m u ≡ remote_package p url)
  unfolding on_parsed
  on_parsed_offer (unparsable e) h = ground arith
  on_parsed_offer (update_info none) h = ground arith
  on_parsed_offer (update_info (some u)) h = (u, refl, ground arith, ground arith, ground arith)

  on_update_response_sound :
      (r : Response)
      → on_update_response m (responded r) ≡ (none, some (remote_package p url))
      → Offers m r (remote_package p url)
  unfolding on_update_response
  on_update_response_sound r e = elim (Bool-cases (eqb r.status_code 200)) [
    | inl ok ↦
        let (u, parsed, same, available, offered) = on_parsed_offer r.parsed (rw ok at e) in
        record {
          info = u;
          ok = ground arith;
          parsed = parsed;
          same_version = same;
          available = available;
          offered = offered;
        }
    | inr other ↦ absurd (ground arith)
  ]

  on_update_response_complete :
      (r : Response)
      → Offers m r (remote_package p url)
      → on_update_response m (responded r) ≡ (none, some (remote_package p url))
  unfolding on_update_response
  on_update_response_complete r o =
      rw (o.ok, o.parsed, on_parsed, o.same_version, o.available, o.offered) refl

  -- The callback gets an update package exactly when the response offers it.
  pub on_update_response_iff :
      (r : Response)
      → (on_update_response m (responded r) ≡ (none, some (remote_package p url)))
        ↔ Offers m r (remote_package p url)
  on_update_response_iff r = (on_update_response_sound r, on_update_response_complete r)
