-- ===== src/Provision/Changes.antt =====
-- crates/provision/src/lib.rs: fulfilling a request, retrying, tearing down and linking a resource.
-- The service holds a handle on the workflow engine, as in Enqueue.
use frontkeep.Workflow.State.{as_str as state_text}
use frontkeep.Base.{
  ℕ, String, false, ◌&&◌, ◌||◌, Option, none, some, List, [], ◌∷◌, ◌==◌, if◌then◌else◌, unwrap_or,
  ◌>>=◌, ok_or, map_err, Result, err, ok, trim, concat, insert_key,
}
use frontkeep.Base.Float.{Float}
use frontkeep.Base.Json.{json, get_str, str}
use frontkeep.Provision.Connectors.{from_registration, tags_of, budget_for, Service}
use frontkeep.Provision.Enqueue.{
  is_work_state, inline_wait, enqueue_and_wait, JsonText, RequestOutcome,
}
use frontkeep.Provision.Manifest.{
  not_found, text_of, ProvisionError, invalid_spec, not_permitted, registry_failed,
}
use frontkeep.Provision.Queries.{get_by_request}
use frontkeep.Provision.Repo.{
  find_record, insert_record, mark_state, reclaim_stale, reset_for_retry, ProvisionedRecord,
}
use frontkeep.Provision.ServiceCatalog.{get_service}
use frontkeep.Provision.Worker.{stale_cutoff, ProvisionDb}
use frontkeep.Registry.Active.{require_active}
use frontkeep.Registry.Records.{Registration}
use frontkeep.Storage.Audit.{new_record, append}
use frontkeep.Storage.Env.{Env}
use frontkeep.Workflow.Engine.{get, WorkflowRequest, WorkflowDb}
use frontkeep.Workflow.State.{is_state, approved, fulfilled}

abbrev extend : List (String × String) → List (String × String) → List (String × String)
extend tags [] = tags
extend tags ((k, v) ∷ more) = extend (insert_key tags k v) more

module _ {F : Float} where
  abbrev pub with_rows : List (ProvisionedRecord F) → ProvisionDb F → ProvisionDb F
  with_rows rows db = record db { rows = rows }

module _ {F : Float} (svc : Service F) (text : JsonText) (env : Env)
    (others : ℕ → ProvisionDb F → ProvisionDb F) where
  abbrev pub waited_on :
      String → String → ProvisionDb F → ProvisionDb F × Result ProvisionError (ProvisionedRecord F)
  waited_on id rtype db =
      inline_wait svc text others (budget_for svc (get_service rtype svc.catalog)) id db

  abbrev deprovision_found :
      ProvisionedRecord F
      → ProvisionDb F
      → ProvisionDb F × Result ProvisionError (ProvisionedRecord F)
  deprovision_found rec db =
      let unlinked = mark_state env rec.id "destroyed" db.rows in
      if rec.state == "destroyed" || rec.state == "destroying"
      then (db, ok rec)
      else if rec.state == "linked"
      then (with_rows unlinked db, ok_or (find_record rec.id unlinked) (not_found rec.id))
      else waited_on rec.id rec.rtype (with_rows (mark_state env rec.id "destroying" db.rows) db)

  unfoldable pub deprovision :
      String → ProvisionDb F → ProvisionDb F × Result ProvisionError (ProvisionedRecord F)
  deprovision resource_id db = elim (find_record resource_id db.rows) [
    | none ↦ (db, err (not_found resource_id))
    | some rec ↦ deprovision_found rec db
  ]

  abbrev retry_found :
      ProvisionedRecord F
      → ProvisionDb F
      → ProvisionDb F × Result ProvisionError (ProvisionedRecord F)
  retry_found rec db =
      let reclaimed = reclaim_stale env rec.id (stale_cutoff env) db.rows in
      if rec.state == "failed" || rec.state == "destroy_failed"
      then waited_on rec.id rec.rtype (with_rows (reset_for_retry env rec.id db.rows) db)
      else if is_work_state rec.state && reclaimed.1
      then waited_on rec.id rec.rtype (with_rows reclaimed.0 db)
      else (db, ok rec)

  unfoldable pub retry_resource :
      String → ProvisionDb F → ProvisionDb F × Result ProvisionError (ProvisionedRecord F)
  retry_resource resource_id db = elim (find_record resource_id db.rows) [
    | none ↦ (db, err (not_found resource_id))
    | some rec ↦ retry_found rec db
  ]

  abbrev fulfill_approved :
      (String → Option (Registration F))
      → WorkflowRequest
      → ProvisionDb F
      → ProvisionDb F × Result ProvisionError (RequestOutcome F)
  fulfill_approved registered req db =
      let reg =
        ok_or (get_str req.payload "project_id") (invalid_spec "request has no project_id")
        >>= λ project. map_err registry_failed (require_active registered project) in
      let rtype = unwrap_or (get_str req.payload "resource_type") "" in
      elim reg [
        | err e ↦ (db, err e)
        | ok r ↦
            enqueue_and_wait svc text env others r req
              (budget_for svc (get_service rtype svc.catalog)) db
      ]

  abbrev not_approved : WorkflowRequest → ProvisionError
  not_approved req = not_permitted (
      text_of
        ("request is " ∷ state_text req.state ∷ ", must be approved before provisioning" ∷ []))

  abbrev fulfill_pending :
      (String → Option (Registration F))
      → WorkflowRequest
      → ProvisionDb F
      → ProvisionDb F × Result ProvisionError (RequestOutcome F)
  fulfill_pending registered req db =
      if is_state req.state approved
      then fulfill_approved registered req db
      else (db, err (not_approved req))

  -- A request that was fulfilled already gives its record.
  abbrev fulfill_found :
      (String → Option (Registration F))
      → WorkflowRequest
      → ProvisionDb F
      → ProvisionDb F × Result ProvisionError (RequestOutcome F)
  fulfill_found registered req db = elim (get_by_request req.id db.rows) [
    | none ↦ fulfill_pending registered req db
    | some rec ↦
        if is_state req.state fulfilled
        then (db, ok (record { request = req; provisioned = some rec; pending_approval = false }))
        else fulfill_pending registered req db
  ]

  unfoldable pub fulfill_request :
      (String → Option (Registration F))
      → String
      → ProvisionDb F
      → ProvisionDb F × Result ProvisionError (RequestOutcome F)
  fulfill_request registered request_id db = elim (get request_id db.workflow) [
    | none ↦ (db, err (not_found request_id))
    | some req ↦ fulfill_found registered req db
  ]

module _ {F : Float} where
  abbrev linked_record :
      Env
      → Registration F
      → (name cost_source note : String) → F.F64
      → List (String × String)
      → ProvisionedRecord F
  linked_record env reg name cost_source note est extra = record {
    id = env.uid;
    project_id = reg.project_id;
    rtype = "external";
    name = name;
    spec = json (("cost_source", str cost_source) ∷ ("note", str note) ∷ []);
    outputs = json [];
    tags =
        extend (insert_key (tags_of (from_registration reg "" "")) "managed-by" "external") extra;
    est_monthly_usd = est;
    state = "linked";
    backend = "external";
    dry_run = false;
    request_id = none;
    created_at = env.now;
    updated_at = env.now;
    last_error = "";
    attempts = 0;
    next_retry_at = none;
    worker_owner = none;
  }

  abbrev log_linked : Env → Registration F → ProvisionedRecord F → String → WorkflowDb → WorkflowDb
  log_linked env reg rec cost_source w = record w {
    audit_log =
        append
          (record (new_record env reg.owner "resource.linked") {
            entity_ref = some (concat "project:" reg.project_id);
            outcome = "linked";
            data_json = json (
                ("resource_id", str rec.id)
                ∷ ("name", str rec.name)
                ∷ ("cost_source", str cost_source)
                ∷ ("est_monthly_usd", F.json rec.est_monthly_usd)
                ∷ []);
          })
          w.audit_log;
  }

  unfoldable pub link_resource :
      Env
      → Registration F
      → (name cost_source : String) → F.F64
      → List (String × String)
      → String
      → ProvisionDb F
      → ProvisionDb F × Result ProvisionError (ProvisionedRecord F)
  link_resource env reg name cost_source est extra note db =
      let rec = linked_record env reg (trim name) (trim cost_source) note est extra in
      if trim name == ""
      then (db, err (invalid_spec "name is required"))
      else if trim cost_source == ""
      then (
        db,
        err (
            invalid_spec
              "cost_source is required (e.g. aws-cost-explorer, databricks-billing, flat, none)"),
      )
      else (
        record db {
          rows = insert_record rec db.rows;
          workflow = log_linked env reg rec (trim cost_source) db.workflow;
        },
        ok rec,
      )
