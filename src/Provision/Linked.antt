-- ===== src/Provision/Linked.antt =====
-- crates/provision/src/lib.rs: what the operations on resources do to a linked one.
mod Tests
use frontkeep.Base.{
  ℕ, String, ◌≡◌, refl, ap, ◌∙◌, false, some, ◌==◌, eq_iff, eq_refl, arith, if◌then◌else◌, ok,
  IsKeyed,
}
use frontkeep.Base.Float.{Float}
use frontkeep.Policy.Cedar.{error_text}
use frontkeep.Provision.Cascaded.{marked, mark_state-find}
use frontkeep.Provision.Cascades.{suspend_project, resume_project, destroy_project_resources}
use frontkeep.Provision.Changes.{with_rows, deprovision, retry_resource}
use frontkeep.Provision.Connectors.{Service}
use frontkeep.Provision.Enqueue.{JsonText}
use frontkeep.Provision.Manifest.{ProvisionError}
use frontkeep.Provision.Repo.{record_id, find_record, mark_state, ProvisionedRecord}
use frontkeep.Provision.Suspended.{
  suspend_project_lem, resume_project_lem, destroy_project_resources_lem,
}
use frontkeep.Provision.Worker.{action_of, Connector, drive_core, RetryPolicy, ProvisionDb}
use frontkeep.Storage.Env.{Env}

module _ {F : Float} (svc : Service F) (error_text : ProvisionError → String) (text : JsonText)
    (env : Env) (others : ℕ → ProvisionDb F → ProvisionDb F) (connector : Connector F)
    (policy_of : String → RetryPolicy) (project : String) (db : ProvisionDb F)
    (rec : ProvisionedRecord F) (found : find_record rec.id db.rows ≡ some rec)
    (linked : rec.state ≡ "linked") where
  not_in : (s : String) → ("linked" == s) ≡ false → (rec.state == s) ≡ false
  not_in s e = ap (λ state. state == s) linked ∙ e

  unlinked-find :
      find_record rec.id (mark_state env rec.id "destroyed" db.rows)
      ≡ some (marked env "destroyed" rec)
  unlinked-find =
      ground (arith, mark_state-find env rec.id "destroyed" rec.id db.rows, found, eq_refl rec.id)

  drive_core-linked : drive_core env svc.instance_id connector policy_of rec.id db ≡ (db, ok tt)
  unfolding drive_core
  drive_core-linked = ground (arith, found, ap action_of linked)

  retry_resource-linked : retry_resource svc text env others rec.id db ≡ (db, ok rec)
  unfolding retry_resource
  retry_resource-linked = ground (
    arith,
    found,
    not_in "failed" refl,
    not_in "destroy_failed" refl,
    not_in "provisioning" refl,
    not_in "destroying" refl,
  )

  deprovision-linked :
      deprovision svc text env others rec.id db
      ≡ (with_rows (mark_state env rec.id "destroyed" db.rows) db, ok (marked env "destroyed" rec))
  unfolding deprovision
  deprovision-linked = ground (
    arith,
    found,
    not_in "destroyed" refl,
    not_in "destroying" refl,
    eq_iff rec.state "linked",
    linked,
    unlinked-find,
  )

  -- In a table without two rows of an id, for a linked resource: a worker and a retry leave it and
  -- the table as they are; suspending or resuming any project leaves it; `deprovision` marks it
  -- destroyed and returns at once; tearing a project down marks it destroyed where it is of that
  -- project, and else leaves it. All of it whatever the connectors answer and the other workers do.
  pub linked_lem :
      IsKeyed record_id db.rows
      → (drive_core env svc.instance_id connector policy_of rec.id db ≡ (db, ok tt))
        × (retry_resource svc text env others rec.id db ≡ (db, ok rec))
        × (find_record rec.id (suspend_project svc error_text env project db.rows).0 ≡ some rec)
        × (find_record rec.id (resume_project svc error_text env project db.rows).0 ≡ some rec)
        × (deprovision svc text env others rec.id db ≡ (
          with_rows (mark_state env rec.id "destroyed" db.rows) db,
          ok (marked env "destroyed" rec),
        ))
        × (find_record rec.id (destroy_project_resources svc error_text env project db.rows).0
            ≡ some (if rec.project_id == project then marked env "destroyed" rec else rec))
  linked_lem k = (
    drive_core-linked,
    retry_resource-linked,
    ground (
      arith,
      suspend_project_lem svc error_text env project db.rows rec.id k,
      found,
      not_in "provisioned" refl,
    ),
    ground (
      arith,
      resume_project_lem svc error_text env project db.rows rec.id k,
      found,
      not_in "suspended" refl,
    ),
    deprovision-linked,
    ground (
      arith,
      destroy_project_resources_lem svc error_text env project db.rows rec.id k,
      found,
      not_in "destroyed" refl,
      eq_iff rec.state "linked",
      linked,
    ),
  )
