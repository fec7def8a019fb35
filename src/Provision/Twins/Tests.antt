-- ===== src/Provision/Twins/Tests.antt =====
-- crates/provision: enqueueing and retrying at concrete inputs.
use frontkeep.Base.{String, ◌≡◌, refl, ◌≢◌, true, none, some, [], ◌∷◌, arith, ok, is_hit}
use frontkeep.Base.Json.{json, null, str}
use frontkeep.Provision.Enqueue.{enqueue_apply}
use frontkeep.Provision.Enqueued.{is_update, is_insert, IsEnqueued, enqueue_apply_lem}
use frontkeep.Provision.Queries.{get_by_request, get_active_by_name}
use frontkeep.Provision.Repo.{find_record, ProvisionedRecord}
use frontkeep.Provision.Samples.{at, bucket_row, settings, plain, policy_settings}
use frontkeep.Provision.Single.{at_name, IsSingle}
use frontkeep.Provision.Twins.{drive_core-enqueue_apply, IsRepeat}
use frontkeep.Provision.Worker.{Connector, drive_core, ProvisionDb}
use frontkeep.Registry.Samples.{whole, registered_project}
use frontkeep.Workflow.Engine.{WorkflowRequest}
use frontkeep.Workflow.State.{approved}

abbrev failed_row : ProvisionedRecord whole
failed_row = record bucket_row { state = "failed"; next_retry_at = some 5 }

abbrev tables : ProvisionDb whole
tables = record {
  rows = failed_row ∷ [];
  workflow = record { requests = []; audit_log = [] };
  wired = true;
}

abbrev approved_request : WorkflowRequest
approved_request = record {
  id = "q1";
  kind = "provision:s3";
  requester = "alice";
  subject = "s3/logs";
  state = approved;
  approver = none;
  payload = json (("resource_type", str "s3") ∷ ("name", str "logs") ∷ []);
  reason = none;
  sla_due_at = none;
  created_at = 1;
  updated_at = 1;
}

one_failed : IsSingle tables.rows
unfolding IsSingle
one_failed project rtype name = ground arith

enqueue_apply_lem_example :
    IsSingle
      (enqueue_apply settings plain (at 10) registered_project approved_request tables).0.rows
    × ((id : String)
        → IsEnqueued settings plain
            (at 10)
            registered_project
            approved_request
            (is_update settings plain (at 10) registered_project approved_request tables id)
            (is_insert settings plain (at 10) registered_project approved_request tables id)
            (find_record id tables.rows)
            (find_record id
              (enqueue_apply settings plain
                (at 10)
                registered_project
                approved_request
                tables).0.rows))
enqueue_apply_lem_example =
    enqueue_apply_lem settings plain (at 10) registered_project approved_request tables (refl, tt)
      one_failed

repeat : IsRepeat settings plain registered_project approved_request failed_row tables.rows
unfolding get_by_request get_active_by_name
repeat = record {
  keyed = (refl, tt);
  stored = refl;
  failed = refl;
  new = refl;
  typed = refl;
  named = refl;
  owned = refl;
  free = refl;
}

abbrev working : Connector whole
working action rec = ok null

drive_core-enqueue_apply_example :
    (failed_row.id ≢ (at 10).uid)
    × (is_hit (at_name "p1" "s3" "logs") (
          find_record "b1"
            (drive_core
              (at 1_000_000)
              "w1"
              working
              (λ rtype. policy_settings)
              "b1"
              (enqueue_apply settings plain
                (at 10)
                registered_project
                approved_request
                tables).0).0.rows)
        ≡ true)
    × (is_hit (at_name "p1" "s3" "logs") (
          find_record "u1"
            (drive_core
              (at 1_000_000)
              "w1"
              working
              (λ rtype. policy_settings)
              "b1"
              (enqueue_apply settings plain
                (at 10)
                registered_project
                approved_request
                tables).0).0.rows)
        ≡ true)
drive_core-enqueue_apply_example =
    drive_core-enqueue_apply settings plain registered_project approved_request failed_row (at 10)
      (at 1_000_000) "w1" working (λ rtype. policy_settings) null tables repeat refl refl refl
