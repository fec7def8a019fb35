-- ===== src/Provision/Cascades.antt =====
-- crates/provision/src/lib.rs: what is done to all resources of a project: suspend, resume and
-- destroy. The text of an error (`Display`) is a parameter.
use frontkeep.Base.{
  String, Bool, true, false, List, [], ◌∷◌, ◌++◌, ◌==◌, if◌then◌else◌, Result, err, ok,
}
use frontkeep.Base.Float.{Float}
use frontkeep.Provision.Claims.{step}
use frontkeep.Provision.Connectors.{backend_and_req, Service}
use frontkeep.Provision.Manifest.{ProvisionError}
use frontkeep.Provision.Queries.{list_by_project}
use frontkeep.Provision.Repo.{mark_state, ProvisionedRecord}
use frontkeep.Storage.Env.{Env}
use frontkeep.Workflow.Engine.{project_id}

pub record LifecycleFailure : Type 0 where
  pub resource : String
  pub error : String

pub record LifecycleSummary : Type 0 where
  pub suspended : List String
  pub resumed : List String
  pub destroyed : List String
  pub skipped : List String
  pub failed : List LifecycleFailure

abbrev pub nothing_done : LifecycleSummary
nothing_done = record { suspended = []; resumed = []; destroyed = []; skipped = []; failed = [] }

-- The rows and the summary so far.
abbrev pub Cascade : Float → Type 0
Cascade F = List (ProvisionedRecord F) × LifecycleSummary

module _ {F : Float} where
  abbrev pub each :
      (Cascade F → ProvisionedRecord F → Cascade F)
      → Cascade F
      → List (ProvisionedRecord F)
      → Cascade F
  each step c [] = c
  each step c (rec ∷ recs) = each step (step c rec) recs

module _ {F : Float} (svc : Service F) where
  -- What `stop` of a resource says, after it was marked.
  abbrev pub stop_of : ProvisionedRecord F → Result ProvisionError Bool
  stop_of rec = let (backend, preq) = backend_and_req svc rec in backend.stop preq rec.outputs

  abbrev pub resume_of : ProvisionedRecord F → Result ProvisionError Bool
  resume_of rec = let (backend, preq) = backend_and_req svc rec in backend.resume preq rec.outputs

  abbrev pub destroy_of : ProvisionedRecord F → Result ProvisionError (Unit {0})
  destroy_of rec =
      let (backend, preq) = backend_and_req svc rec in backend.tear_down preq rec.outputs

module _ {F : Float} (svc : Service F) (error_text : ProvisionError → String) (env : Env) where
  abbrev pub failure : ProvisionedRecord F → ProvisionError → LifecycleSummary → LifecycleSummary
  failure rec e sum = record sum {
    failed = sum.failed ++ record { resource = rec.name; error = error_text e } ∷ [];
  }

  abbrev after_stop : ProvisionedRecord F → Cascade F → Result ProvisionError Bool → Cascade F
  after_stop rec (rows, sum) (ok true) = (
    mark_state env rec.id "suspended" rows,
    record sum { suspended = sum.suspended ++ rec.name ∷ [] },
  )
  after_stop rec (rows, sum) (ok false) = (
    mark_state env rec.id "provisioned" rows,
    record sum { skipped = sum.skipped ++ rec.name ∷ [] },
  )
  after_stop rec (rows, sum) (err e) = (mark_state env rec.id "provisioned" rows, failure rec e sum)

  unfoldable pub suspend_one : Cascade F → ProvisionedRecord F → Cascade F
  suspend_one (rows, sum) rec =
      if rec.state == "provisioned"
      then after_stop rec (mark_state env rec.id "suspending" rows, sum) (stop_of svc rec)
      else (rows, sum)

  abbrev after_resume : ProvisionedRecord F → Cascade F → Result ProvisionError Bool → Cascade F
  after_resume rec (rows, sum) (ok b) = (
    mark_state env rec.id "provisioned" rows,
    record sum { resumed = sum.resumed ++ rec.name ∷ [] },
  )
  after_resume rec (rows, sum) (err e) = (mark_state env rec.id "suspended" rows, failure rec e sum)

  unfoldable pub resume_one : Cascade F → ProvisionedRecord F → Cascade F
  resume_one (rows, sum) rec =
      if rec.state == "suspended"
      then after_resume rec (mark_state env rec.id "resuming" rows, sum) (resume_of svc rec)
      else (rows, sum)

  abbrev after_destroy :
      ProvisionedRecord F → Cascade F → Result ProvisionError (Unit {0}) → Cascade F
  after_destroy rec (rows, sum) (ok u) = (
    mark_state env rec.id "destroyed" rows,
    record sum { destroyed = sum.destroyed ++ rec.name ∷ [] },
  )
  after_destroy rec (rows, sum) (err e) = (mark_state env rec.id rec.state rows, failure rec e sum)

  unfoldable pub destroy_one : Cascade F → ProvisionedRecord F → Cascade F
  destroy_one (rows, sum) rec =
      if rec.state == "destroyed"
      then (rows, sum)
      else if rec.state == "linked"
      then after_destroy rec (rows, sum) (ok tt)
      else after_destroy rec (mark_state env rec.id "destroying" rows, sum) (destroy_of svc rec)

  unfoldable pub suspend_project : String → List (ProvisionedRecord F) → Cascade F
  suspend_project project_id rows =
      each suspend_one (rows, nothing_done) (list_by_project project_id rows)

  unfoldable pub resume_project : String → List (ProvisionedRecord F) → Cascade F
  resume_project project_id rows =
      each resume_one (rows, nothing_done) (list_by_project project_id rows)

  unfoldable pub destroy_project_resources : String → List (ProvisionedRecord F) → Cascade F
  destroy_project_resources project_id rows =
      each destroy_one (rows, nothing_done) (list_by_project project_id rows)
