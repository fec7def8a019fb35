-- ===== src/Provision/Granted.antt =====
-- crates/provision/src/lib.rs: which grants of access are requested.
mod Tests
use frontkeep.Base.{
  ℕ, String, ◌≡◌, refl, subst, ◌⊎◌, inl, inr, true, ◌&&◌, Option, some, List, [], ◌∷◌, ◌==◌, ok_or,
  ensure, >>=-eq-ok, ok_or-eq-ok, >>-eq-ok, ensure-eq-ok, Result-cases, Result, err, ok, get_key,
}
use frontkeep.Base.Float.{Float}
use frontkeep.Base.Json.{json, get_str, Json, str}
use frontkeep.Gateway.Call.{principal}
use frontkeep.Policy.Engine.{PolicyEngine}
use frontkeep.Provision.Connectors.{Service}
use frontkeep.Provision.Enqueue.{JsonText}
use frontkeep.Provision.Grants.{
  both_resources, principal_of, grant_terms, grant_spec, request_grant, GrantTerms,
}
use frontkeep.Provision.Manifest.{text_of, GrantCfg, ServiceManifest, ProvisionError}
use frontkeep.Provision.Repo.{find_record, ProvisionedRecord}
use frontkeep.Provision.Requests.{request_inner}
use frontkeep.Provision.ServiceCatalog.{get_service}
use frontkeep.Provision.Worker.{ProvisionDb}
use frontkeep.Registry.Records.{Registration}
use frontkeep.Storage.Env.{Env}

module _ {F : Float} (svc : Service F) where
  -- A grant that may be asked for: both resources belong to the project and are provisioned, the
  -- target's service hands out access at the level, with these actions, and takes the kind of
  -- identity that the consumer's service provides, which stands in the consumer's outputs.
  pub record IsGrantable (project consumer_id target_id level : String)
      (rows : List (ProvisionedRecord F)) (terms : GrantTerms F) : Type 0 where
    pub consumer_found : find_record consumer_id rows ≡ some terms.consumer
    pub target_found : find_record target_id rows ≡ some terms.target
    pub both_owned :
        (terms.consumer.project_id == project && terms.target.project_id == project) ≡ true
    pub both_live :
        (terms.consumer.state == "provisioned" && terms.target.state == "provisioned") ≡ true
    pub of_target :
        (tm : ServiceManifest F) × (get_service terms.target.rtype svc.catalog ≡ some tm)
        × (tm.grant ≡ some terms.grant)
        × (get_key tm.access_levels level ≡ some terms.actions)
    pub of_consumer :
        (cm : ServiceManifest F) × (kind key : String) × (get_service terms.consumer.rtype
            svc.catalog
          ≡ some cm)
        × (cm.principal_kind ≡ some kind)
        × ((kind == terms.grant.principal_kind) ≡ true)
        × (cm.principal_output ≡ some key)
        × (get_str terms.consumer.outputs key ≡ some terms.principal)

ok_of : {E A : Type 0} {a b : A} → ◌≡◌ {A = Result E A} (ok a) (ok b) → a ≡ b
ok_of h = cc

module _ {F : Float} (svc : Service F) where
  principal_found :
      (consumer target : ProvisionedRecord F) (cm : ServiceManifest F) (grant : GrantCfg)
      (principal : String)
      → principal_of consumer target cm grant ≡ ok principal
      → (kind key : String) × (cm.principal_kind ≡ some kind)
        × ((kind == grant.principal_kind) ≡ true)
        × (cm.principal_output ≡ some key)
        × (get_str consumer.outputs key ≡ some principal)
  principal_found consumer target cm grant principal h =
      let (kind, a, h1) = >>=-eq-ok (ok_or cm.principal_kind _) _ h in
      let (u, b, h2) = >>=-eq-ok (ensure (kind == grant.principal_kind) _) _ h1 in
      let (key, c, d) = >>=-eq-ok (ok_or cm.principal_output _) _ h2 in
      (kind, key, ok_or-eq-ok _ _ a, ensure-eq-ok _ _ b, ok_or-eq-ok _ _ c, ok_or-eq-ok _ _ d)

  both_sound :
      (project : String) (consumer target : ProvisionedRecord F)
      → both_resources project consumer target ≡ ok tt
      → ((consumer.project_id == project && target.project_id == project) ≡ true)
        × ((consumer.state == "provisioned" && target.state == "provisioned") ≡ true)
  both_sound project consumer target h =
      let (a, b) = >>-eq-ok _ _ tt h in (ensure-eq-ok _ _ a, ensure-eq-ok _ _ b)

  grant_terms-IsGrantable :
      (project consumer_id target_id level : String) (db : ProvisionDb F) (terms : GrantTerms F)
      → grant_terms svc project consumer_id target_id level db ≡ ok terms
      → IsGrantable svc project consumer_id target_id level db.rows terms
  unfolding grant_terms
  grant_terms-IsGrantable project consumer_id target_id level db terms h =
      let (consumer, a1, h1) = >>=-eq-ok (ok_or (find_record consumer_id db.rows) _) _ h in
      let (target, a2, h2) = >>=-eq-ok (ok_or (find_record target_id db.rows) _) _ h1 in
      let (u, a3, h3) = >>=-eq-ok (both_resources project consumer target) _ h2 in
      let (cm, a4, h4) = >>=-eq-ok (ok_or (get_service consumer.rtype svc.catalog) _) _ h3 in
      let (tm, a5, h5) = >>=-eq-ok (ok_or (get_service target.rtype svc.catalog) _) _ h4 in
      let (grant, a6, h6) = >>=-eq-ok (ok_or tm.grant _) _ h5 in
      let (principal, a7, h7) = >>=-eq-ok (principal_of consumer target cm grant) _ h6 in
      let (arn, a8, h8) = >>=-eq-ok (ok_or (get_str target.outputs "arn") _) _ h7 in
      let (actions, a9, h9) = >>=-eq-ok (ok_or (get_key tm.access_levels level) _) _ h8 in
      let (owned, live) = both_sound project consumer target a3 in
      let (kind, key, p1, p2, p3, p4) = principal_found consumer target cm grant principal a7 in
      subst (IsGrantable svc project consumer_id target_id level db.rows) (ok_of h9) (record {
        consumer_found = ok_or-eq-ok _ _ a1;
        target_found = ok_or-eq-ok _ _ a2;
        both_owned = owned;
        both_live = live;
        of_target = (tm, ok_or-eq-ok _ _ a5, ok_or-eq-ok _ _ a6, ok_or-eq-ok _ _ a9);
        of_consumer = (cm, kind, key, ok_or-eq-ok _ _ a4, p1, p2, p3, p4);
      })

module _ {F : Float} (svc : Service F) (registered : String → Option (Registration F))
    (policy : PolicyEngine) (text : JsonText) (env env_rec : Env)
    (others : ℕ → ProvisionDb F → ProvisionDb F) where
  -- A request for access that is not refused outright, without any change, is between two
  -- provisioned resources of the project, at a level that the target's service hands out, for the
  -- kind of identity that the consumer's service provides; and it goes on as a request for a
  -- resource of the service `access-grant`, whose connector module is the one that the target's
  -- service names.
  pub request_grant-IsGrantable :
      (project consumer_id target_id level requester : String) (db : ProvisionDb F)
      → ((e : ProvisionError) × (request_grant svc registered policy text env env_rec others project
              consumer_id target_id level requester db
            ≡ (db, err e)))
        ⊎ ((terms : GrantTerms F) × (name : String) × (spec : Json) × (override : Json)
            × IsGrantable svc project consumer_id target_id level db.rows terms
            × (request_grant svc registered policy text env env_rec others project consumer_id
                  target_id level requester db
                ≡ request_inner svc registered policy text env env_rec others project "access-grant"
                    name spec requester
                    (some override)
                    db)
            × (get_str override "module" ≡ some terms.grant.module_path))
  unfolding request_grant
  request_grant-IsGrantable project consumer_id target_id level requester db =
      elim (Result-cases (grant_terms svc project consumer_id target_id level db)) [
        | inl (e, refused) ↦ inl (e, rw (refused, request_grant) refl)
        | inr (terms, agreed) ↦ inr (
          terms,
          text_of ("grant-" ∷ terms.consumer.name ∷ "-" ∷ terms.target.name ∷ "-" ∷ level ∷ []),
          grant_spec svc consumer_id target_id level terms,
          json (("module", str terms.grant.module_path) ∷ []),
          grant_terms-IsGrantable svc project consumer_id target_id level db terms agreed,
          rw (agreed, request_grant) refl,
          refl,
        )
      ]
