-- ===== src/Provision/Enqueue.antt =====
-- crates/provision/src/lib.rs: the work item of an approved request, and the wait for it. The text
-- form of JSON values and their equality (serde_json) are a parameter. The service holds a handle on
-- the workflow engine, so `dispatch` only spawns the worker: what the worker and all others do
-- during a sleep of the wait is an argument, `others`. The lookup of a live resource of the name and
-- the insert after it are one step here; in the code another call can come between them.
use frontkeep.Base.{
  ℕ, zero, suc, String, Bool, false, not, ◌&&◌, ◌||◌, Option, none, some, [], ◌==◌, if◌then◌else◌,
  unwrap_or, ok_or, Result, err, ok,
}
use frontkeep.Base.Float.{Float}
use frontkeep.Base.Json.{json, get_str, Json}
use frontkeep.Provision.Connectors.{
  from_registration, tags_of, connector_backend, connector_and_config, Service,
}
use frontkeep.Provision.Manifest.{not_found, resolve, ProvisionError, invalid_spec}
use frontkeep.Provision.Queries.{get_by_request, get_active_by_name}
use frontkeep.Provision.Repo.{find_record, insert_record, update_for_reapply, ProvisionedRecord}
use frontkeep.Provision.ServiceCatalog.{get_service}
use frontkeep.Provision.Worker.{fulfilled_by, ProvisionDb}
use frontkeep.Registry.Records.{Registration}
use frontkeep.Storage.Env.{Env}
use frontkeep.Workflow.Engine.{get, WorkflowRequest}

pub record JsonText : Type 0 where
  pub to_string : Json → String
  pub from_str : String → Option Json
  pub same : Json → Json → Bool

pub record RequestOutcome (F : Float) : Type 0 where
  pub request : WorkflowRequest
  pub provisioned : Option (ProvisionedRecord F)
  pub pending_approval : Bool

abbrev pub is_work_state : String → Bool
is_work_state state = state == "provisioning" || state == "destroying"

module _ {F : Float} (svc : Service F) (text : JsonText) where
  abbrev pub spec_of : WorkflowRequest → Json
  spec_of req = elim (get_str req.payload "spec_json") [
    | none ↦ json []
    | some s ↦ unwrap_or (text.from_str s) (json [])
  ]

  abbrev pub name_of : WorkflowRequest → String
  name_of req = unwrap_or (get_str req.payload "name") ""

  abbrev pub estimate : String → Json → F.F64 → F.F64
  estimate resource_type spec other = elim (get_service resource_type svc.catalog) [
    | none ↦ other
    | some m ↦ (resolve m spec).estimated_monthly_usd
  ]

  -- The record of a new resource.
  abbrev pub new_record_of : Env → Registration F → WorkflowRequest → String → ProvisionedRecord F
  new_record_of env reg req resource_type =
      let backend = connector_backend svc (connector_and_config svc resource_type).0 in
      let cloud = unwrap_or (get_str req.payload "cloud") svc.default_cloud in
      let account = unwrap_or (get_str req.payload "account") svc.default_account in
      record {
        id = env.uid;
        project_id = reg.project_id;
        rtype = resource_type;
        name = name_of req;
        spec = spec_of req;
        outputs = json [];
        tags = tags_of (from_registration reg cloud account);
        est_monthly_usd = estimate resource_type (spec_of req) F.zero;
        state = "provisioning";
        backend = backend.name;
        dry_run = backend.dry_run;
        request_id = some req.id;
        created_at = env.now;
        updated_at = env.now;
        last_error = "";
        attempts = 0;
        next_retry_at = none;
        worker_owner = none;
      }

  abbrev pub reapplied :
      Env
      → WorkflowRequest
      → String
      → ProvisionedRecord F
      → ProvisionDb F
      → ProvisionDb F × Result ProvisionError (ProvisionedRecord F)
  reapplied env req resource_type existing db =
      let rows =
        update_for_reapply env existing.id (spec_of req)
          (estimate resource_type (spec_of req) existing.est_monthly_usd) req.id db.rows in
      (record db { rows = rows }, ok_or (find_record existing.id rows) (not_found existing.id))

  -- A live resource of the name: a changed specification is applied to it again, any other request
  -- is fulfilled as it stands.
  abbrev pub enqueue_existing :
      Env
      → WorkflowRequest
      → String
      → ProvisionedRecord F
      → ProvisionDb F
      → ProvisionDb F × Result ProvisionError (ProvisionedRecord F)
  enqueue_existing env req resource_type existing db =
      if existing.state == "provisioned" && not (text.same existing.spec (spec_of req))
      then reapplied env req resource_type existing db
      else (record db { workflow = fulfilled_by env req.id db.wired db.workflow }, ok existing)

  abbrev pub enqueue_named :
      Env
      → Registration F
      → WorkflowRequest
      → String
      → ProvisionDb F
      → ProvisionDb F × Result ProvisionError (ProvisionedRecord F)
  enqueue_named env reg req resource_type db =
      elim (get_active_by_name reg.project_id resource_type (name_of req) db.rows) [
        | some existing ↦ enqueue_existing env req resource_type existing db
        | none ↦
            let rec = new_record_of env reg req resource_type in
            (record db { rows = insert_record rec db.rows }, ok rec)
      ]

  unfoldable pub enqueue_apply :
      Env
      → Registration F
      → WorkflowRequest
      → ProvisionDb F
      → ProvisionDb F × Result ProvisionError (ProvisionedRecord F)
  enqueue_apply env reg req db = elim (get_by_request req.id db.rows) [
    | some existing ↦ (db, ok existing)
    | none ↦ elim (get_str req.payload "resource_type") [
      | none ↦ (db, err (invalid_spec "request has no resource_type"))
      | some resource_type ↦ enqueue_named env reg req resource_type db
    ]
  ]

  -- The budget is the number of sleeps of 250 ms that it holds.
  unfoldable pub inline_wait :
      (ℕ → ProvisionDb F → ProvisionDb F)
      → ℕ
      → String
      → ProvisionDb F
      → ProvisionDb F × Result ProvisionError (ProvisionedRecord F)
  inline_wait others zero id db = (db, ok_or (find_record id db.rows) (not_found id))
  inline_wait others (suc n) id db = elim (find_record id db.rows) [
    | none ↦ (db, err (not_found id))
    | some rec ↦
        let later = inline_wait others n id (others n db) in
        if is_work_state rec.state then later else (db, ok rec)
  ]

  abbrev waited :
      WorkflowRequest
      → ProvisionDb F × Result ProvisionError (ProvisionedRecord F)
      → ProvisionDb F × Result ProvisionError (RequestOutcome F)
  waited req (db, err e) = (db, err e)
  waited req (db, ok rec) = (
    db,
    ok (record {
      request = unwrap_or (get req.id db.workflow) req;
      provisioned = some rec;
      pending_approval = false;
    }),
  )

  abbrev waiting :
      (ℕ → ProvisionDb F → ProvisionDb F)
      → ℕ
      → ProvisionDb F × Result ProvisionError (ProvisionedRecord F)
      → ProvisionDb F × Result ProvisionError (ProvisionedRecord F)
  waiting others budget (db, err e) = (db, err e)
  waiting others budget (db, ok rec) = inline_wait others budget rec.id db

  unfoldable pub enqueue_and_wait :
      Env
      → (ℕ → ProvisionDb F → ProvisionDb F)
      → Registration F
      → WorkflowRequest
      → ℕ
      → ProvisionDb F
      → ProvisionDb F × Result ProvisionError (RequestOutcome F)
  enqueue_and_wait env others reg req budget db =
      waited req (waiting others budget (enqueue_apply env reg req db))
