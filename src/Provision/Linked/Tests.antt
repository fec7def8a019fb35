-- ===== src/Provision/Linked/Tests.antt =====
-- crates/provision: a linked resource at a concrete input. Its backend fails whatever it is asked.
use frontkeep.Base.{ℕ, String, ◌≡◌, refl, true, some, [], ◌∷◌, Result, err, ok}
use frontkeep.Base.Json.{Json}
use frontkeep.Provision.Cascaded.{marked}
use frontkeep.Provision.Cascades.{suspend_project, resume_project, destroy_project_resources}
use frontkeep.Provision.Changes.{with_rows, deprovision, retry_resource}
use frontkeep.Provision.Linked.{linked_lem}
use frontkeep.Provision.Manifest.{ProvisionError}
use frontkeep.Provision.Repo.{find_record, mark_state, ProvisionedRecord}
use frontkeep.Provision.Samples.{at, bucket_row, settings, plain, policy_settings}
use frontkeep.Provision.Worker.{drive_core, Action, ProvisionDb}
use frontkeep.Registry.Samples.{whole}

abbrev error_text : ProvisionError → String
error_text e = "failed"

abbrev failing : Action → ProvisionedRecord whole → Result String Json
failing action rec = err "unreachable"

abbrev quiet : ℕ → ProvisionDb whole → ProvisionDb whole
quiet n db = db

abbrev warehouse : ProvisionedRecord whole
warehouse = record bucket_row { id = "b2"; state = "linked" }

abbrev stored_db : ProvisionDb whole
stored_db = record {
  rows = bucket_row ∷ warehouse ∷ [];
  workflow = record { requests = []; audit_log = [] };
  wired = true;
}

linked_lem_example :
    (drive_core (at 50) "w1" failing (λ rtype. policy_settings) "b2" stored_db ≡ (stored_db, ok tt))
    × (retry_resource settings plain (at 50) quiet "b2" stored_db ≡ (stored_db, ok warehouse))
    × (find_record "b2" (suspend_project settings error_text (at 50) "p1" stored_db.rows).0
        ≡ some warehouse)
    × (find_record "b2" (resume_project settings error_text (at 50) "p1" stored_db.rows).0
        ≡ some warehouse)
    × (deprovision settings plain (at 50) quiet "b2" stored_db ≡ (
      with_rows (mark_state (at 50) "b2" "destroyed" stored_db.rows) stored_db,
      ok (marked (at 50) "destroyed" warehouse),
    ))
    × (find_record "b2"
          (destroy_project_resources settings error_text (at 50) "p1" stored_db.rows).0
        ≡ some (marked (at 50) "destroyed" warehouse))
linked_lem_example =
    linked_lem settings error_text plain (at 50) quiet failing (λ rtype. policy_settings) "p1"
      stored_db warehouse refl refl (refl, (refl, tt))
