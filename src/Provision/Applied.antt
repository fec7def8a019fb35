-- ===== src/Provision/Applied.antt =====
-- crates/provision/src/lib.rs: what an apply hands on.
mod Tests
use frontkeep.Base.{
  String, ◌≡◌, refl, sym, subst, ◌∙◌, inl, inr, Bool, ◌++◌, Bool-cases, contains, Result-cases,
  Result, err, ok,
}
use frontkeep.Base.Float.{Float}
use frontkeep.Base.Json.{get_value, Json}
use frontkeep.Provision.Apply.{
  route_secrets, unsupported_type, apply_config, declared_secrets, outputs_of, run_apply,
  SecretStore,
}
use frontkeep.Provision.Connectors.{
  connector_backend, connector_and_config, request_for, Provisioned, Service,
}
use frontkeep.Provision.Enqueue.{JsonText}
use frontkeep.Provision.Manifest.{ProvisionError}
use frontkeep.Provision.Repo.{ProvisionedRecord}
use frontkeep.Provision.Secrecy.{clash_pair, IsRouted, route_secrets-IsRouted, Puts}
use frontkeep.Provision.Worker.{ProvisionDb}

module _ {F : Float} {S : Type 0} (svc : Service F) (secrets : SecretStore S)
    (text : JsonText) where
  outputs_of_case :
      (s' : S) (outputs : Json) (x : S × Result ProvisionError Provisioned)
      → outputs_of svc secrets text x ≡ (s', ok outputs)
      → (q : Provisioned) × (x ≡ (s', ok q)) × (q.outputs ≡ outputs)
  outputs_of_case s' outputs (s1, err e) h = elim (clash_pair h) [ ]
  outputs_of_case s' outputs (s1, ok q) h = (q, cc, cc)

  -- An apply of a record that succeeds is a run of the service's connector that succeeds, and of what
  -- the connector made, each output that the service's manifest declares secret or the connector
  -- marks as sensitive, if it is there, was put into the store on the way, as text and under the
  -- resource's name and the key, and is handed on as the reference that the store gave for it; every
  -- other output is handed on as the connector gave it. The store has only been put to, for the
  -- record's project.
  pub run_apply-IsRouted :
      (db : ProvisionDb F) (rec : ProvisionedRecord F) (s s' : S) (outputs : Json)
      → run_apply svc secrets text db rec s ≡ (s', ok outputs)
      → (p : Provisioned) × ((connector_backend svc (connector_and_config svc rec.rtype).0).run (
            request_for svc rec
              (apply_config svc secrets text db rec)
              (declared_secrets svc secrets text rec.rtype))
          ≡ ok p)
        × Puts secrets rec.project_id s s'
        × ((key : String)
            → IsRouted secrets text rec.project_id rec.name key s s'
                (contains (declared_secrets svc secrets text rec.rtype ++ p.sensitive_keys) key)
                (get_value p.outputs key)
                (get_value outputs key))
  unfolding run_apply
  run_apply-IsRouted db rec s s' outputs h =
      let backend = connector_backend svc (connector_and_config svc rec.rtype).0 in
      let declared = declared_secrets svc secrets text rec.rtype in
      let preq = request_for svc rec (apply_config svc secrets text db rec) declared in
      elim (Bool-cases (backend.supports rec.rtype)) [
        | inr strange ↦
            let failed : run_apply svc secrets text db rec s
                ≡ (s, err (unsupported_type svc rec.rtype)) =
              rw (run_apply, strange) refl in
            elim (clash_pair (sym failed ∙ h)) [ ]
        | inl known ↦ elim (Result-cases (backend.run preq)) [
          | inl (e, refused) ↦
              let failed : run_apply svc secrets text db rec s ≡ (s, err e) =
                rw (run_apply, known, refused) refl in
              elim (clash_pair (sym failed ∙ h)) [ ]
          | inr (p, made) ↦
              let routing = route_secrets secrets text rec.project_id rec.name declared p s in
              let went : run_apply svc secrets text db rec s ≡ outputs_of svc secrets text routing =
                rw (run_apply, known, made) refl in
              let (q, routed, same) = outputs_of_case s' outputs routing (sym went ∙ h) in
              (
                p,
                made,
                (route_secrets-IsRouted secrets text rec.project_id rec.name declared p q s s' ""
                    routed).0,
                λ key.
                    subst
                      (λ o.
                        IsRouted secrets text rec.project_id rec.name key s s'
                          (contains (declared ++ p.sensitive_keys) key) (get_value p.outputs key)
                          (get_value o key))
                      same
                      (route_secrets-IsRouted secrets text rec.project_id rec.name declared p q s s'
                        key routed).1,
              )
        ]
      ]
