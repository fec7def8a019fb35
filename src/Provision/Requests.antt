-- ===== src/Provision/Requests.antt =====
-- crates/provision/src/lib.rs: a request for a resource.
use frontkeep.Base.{
  ℕ, String, Bool, false, not, ◌&&◌, Option, none, some, List, [], ◌∷◌, ◌==◌, if◌then◌else◌, any,
  unwrap_or, is_some, or_else, ◌>>=◌, ◌>>◌, ok_or, ensure, map_err, Result, err, ok, is_blank,
  concat,
}
use frontkeep.Base.Float.{Float}
use frontkeep.Base.Json.{json, get_value, get_str, set_key, Json, str}
use frontkeep.Policy.Engine.{PolicyEngine}
use frontkeep.Provision.Connectors.{ceiling, is_target, budget_for, Service}
use frontkeep.Provision.Enqueue.{enqueue_and_wait, JsonText, RequestOutcome}
use frontkeep.Provision.Manifest.{
  not_found, resolve, text_of, tier_violation, connector_config, ServiceManifest, ProvisionError,
  unsupported, invalid_spec, conflict, not_permitted, registry_failed,
}
use frontkeep.Provision.Queries.{infra_committed_for_project, get_active_by_name}
use frontkeep.Provision.Repo.{find_record, ProvisionedRecord}
use frontkeep.Provision.ServiceCatalog.{get_service, validate_spec}
use frontkeep.Provision.Worker.{ProvisionDb}
use frontkeep.Registry.Active.{require_active}
use frontkeep.Registry.Records.{Registration}
use frontkeep.Storage.Env.{Env}
use frontkeep.Workflow.Engine.{submit, WorkflowRequest, NewRequest, WorkflowDb}
use frontkeep.Workflow.State.{is_state, requested, approved}

abbrev pub tier_gate : Option String → Result ProvisionError (Unit {0})
tier_gate none = ok tt
tier_gate (some reason) = err (not_permitted reason)

module _ {F : Float} (svc : Service F) where
  abbrev pub gate_account : Json → String
  gate_account spec = unwrap_or (get_str spec "account") svc.default_account

  abbrev pub gate_cloud : Json → String
  gate_cloud spec = unwrap_or (get_str spec "cloud") svc.default_cloud

  -- The checks, in their order.
  abbrev pub checks :
      Registration F
      → ServiceManifest F
      → (resource_type name : String) → Json
      → Result ProvisionError (Unit {0})
  checks reg manifest resource_type name spec =
      validate_spec resource_type spec svc.catalog
      >> ensure (not (is_blank name)) (invalid_spec "resource name is required")
      >> ensure (any (is_target (gate_cloud spec) (gate_account spec)) svc.allowed) (
          not_permitted (
            text_of (
              "target "
              ∷ gate_cloud spec
              ∷ "/"
              ∷ gate_account spec
              ∷ " is not an allowed provisioning target"
              ∷ [])))
      >> tier_gate (tier_violation manifest reg.classification (resolve manifest spec))

module _ {F : Float} (svc : Service F) (registered : String → Option (Registration F)) where
  -- The registration and the manifest of a request that passes every check.
  unfoldable pub admit :
      (project resource_type name : String)
      → Json
      → Result ProvisionError (Registration F × ServiceManifest F)
  admit project resource_type name spec =
      map_err registry_failed (require_active registered project) >>= λ reg.
      ok_or (get_service resource_type svc.catalog) (unsupported resource_type) >>= λ manifest.
      checks svc reg manifest resource_type name spec >> ok (reg, manifest)

abbrev pub with_text : String → Option String → Json → Json
with_text key none payload = payload
with_text key (some s) payload = set_key payload key (str s)

abbrev pub override_module : Option Json → Option String
override_module none = none
override_module (some c) = get_str c "module"

module _ {F : Float} where
  abbrev pub est_of : Option (ProvisionedRecord F) → F.F64
  est_of none = F.zero
  est_of (some rec) = rec.est_monthly_usd

  -- What the project has spent and committed, with this request in place of what it replaces.
  abbrev pub committed :
      Registration F
      → (project resource_type name : String) → F.F64
      → List (ProvisionedRecord F)
      → F.F64
  committed reg project resource_type name est rows =
      F.sub (F.add (F.add reg.spent_usd (infra_committed_for_project project rows)) est)
        (est_of (get_active_by_name project resource_type name rows))

module _ {F : Float} (svc : Service F) where
  abbrev pub within_ceiling : Registration F → F.F64 → Bool
  within_ceiling reg amount = elim (ceiling svc reg.classification) [
    | none ↦ false
    | some most ↦ F.le amount most
  ]

  abbrev pub auto_ok :
      Registration F
      → ServiceManifest F
      → (project resource_type name : String) → Json
      → List (ProvisionedRecord F)
      → Bool
  auto_ok reg manifest project resource_type name spec rows =
      let resolved = resolve manifest spec in
      manifest.auto_approvable
      && not resolved.force_review
      && within_ceiling reg
          (committed reg project resource_type name resolved.estimated_monthly_usd rows)

  -- The cloud that is recorded: the specification's, else the manifest's, else the service's.
  abbrev pub recorded_cloud : ServiceManifest F → Json → String
  recorded_cloud manifest spec =
      unwrap_or (or_else (get_str spec "cloud") (get_str (connector_config manifest) "cloud"))
        svc.default_cloud

module _ {F : Float} (svc : Service F) (text : JsonText) where
  abbrev pub payload_of :
      Registration F
      → ServiceManifest F
      → (project resource_type name : String) → Json
      → Option Json
      → Bool
      → Json
  payload_of reg manifest project resource_type name spec config_override auto =
      with_text "level" (get_str spec "level") (
        with_text "config_module" (override_module config_override) (
          json (
            ("project_id", str project)
            ∷ ("resource_type", str resource_type)
            ∷ ("name", str name)
            ∷ ("spec_json", str (text.to_string spec))
            ∷ ("data_class", str reg.data_class)
            ∷ ("provision_tier", str (if auto then "self_service" else "review"))
            ∷ ("cloud", str (recorded_cloud svc manifest spec))
            ∷ ("account", str (gate_account svc spec))
            ∷ [])))

  unfoldable pub submission :
      Registration F
      → ServiceManifest F
      → (project resource_type name : String) → Json
      → String
      → Option Json
      → List (ProvisionedRecord F)
      → NewRequest
  submission reg manifest project resource_type name spec requester config_override rows =
      let auto = auto_ok svc reg manifest project resource_type name spec rows in
      record {
        kind = concat "provision:" resource_type;
        requester = requester;
        subject = concat resource_type (concat "/" name);
        payload = payload_of reg manifest project resource_type name spec config_override auto;
        sla_seconds = if auto then none else some 604_800;
      }

-- What is left open here: the policy, JSON as text, the registrations, what others do in the wait.
module _ {F : Float} (svc : Service F) (registered : String → Option (Registration F))
    (policy : PolicyEngine) (text : JsonText) (env env_rec : Env)
    (others : ℕ → ProvisionDb F → ProvisionDb F) where
  -- A request that policy approves at once is worked on; else it waits for a person, or was denied.
  abbrev pub pursue :
      Registration F
      → ServiceManifest F
      → WorkflowDb × WorkflowRequest
      → ProvisionDb F
      → ProvisionDb F × Result ProvisionError (RequestOutcome F)
  pursue reg manifest (w, req) db =
      let db1 = record db { workflow = w } in
      if is_state req.state approved
      then enqueue_and_wait svc text env_rec others reg req (budget_for svc (some manifest)) db1
      else (
        db1,
        ok (record {
          request = req;
          provisioned = none;
          pending_approval = is_state req.state requested;
        }),
      )

  unfoldable pub request_inner :
      (project resource_type name : String)
      → Json
      → String
      → Option Json
      → ProvisionDb F
      → ProvisionDb F × Result ProvisionError (RequestOutcome F)
  request_inner project resource_type name spec requester config_override db =
      elim (admit svc registered project resource_type name spec) [
        | err e ↦ (db, err e)
        | ok (reg, manifest) ↦
            let new =
              submission svc text reg manifest project resource_type name spec requester
                config_override db.rows in
            pursue reg manifest (submit policy env new db.workflow) db
      ]

  unfoldable pub request :
      (project resource_type name : String)
      → Json
      → String
      → ProvisionDb F
      → ProvisionDb F × Result ProvisionError (RequestOutcome F)
  request project resource_type name spec requester db =
      request_inner project resource_type name spec requester none db

  -- The checks of `deploy_image`: what passes them is the record.
  abbrev pub deployable :
      (project resource_id : String) → ProvisionDb F → Result ProvisionError (ProvisionedRecord F)
  deployable project resource_id db =
      ok_or (find_record resource_id db.rows) (not_found resource_id) >>= λ rec.
      ensure (rec.project_id == project) (not_found resource_id)
      >> ensure (rec.state == "provisioned") (
          conflict (
            text_of (
              "resource " ∷ resource_id ∷ " is " ∷ rec.state
              ∷ " (must be provisioned to deploy an image)" ∷ [])))
      >> ensure (is_some (get_value rec.spec "image")) (
          invalid_spec
            (text_of ("resource " ∷ resource_id ∷ " has no `image` field to update" ∷ [])))
      >> ok rec

  unfoldable pub deploy_image :
      (project resource_id image requester : String)
      → ProvisionDb F
      → ProvisionDb F × Result ProvisionError (RequestOutcome F)
  deploy_image project resource_id image requester db = elim (deployable project resource_id db) [
    | err e ↦ (db, err e)
    | ok rec ↦
        request project rec.rtype rec.name (set_key rec.spec "image" (str image)) requester db
  ]
