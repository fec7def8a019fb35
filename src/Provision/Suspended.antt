-- ===== src/Provision/Suspended.antt =====
-- crates/provision/src/lib.rs: what suspending, resuming and destroying a project's resources leaves.
use mathlib.Core.Option
use frontkeep.Base.{String, ◌≡◌, not, ◌&&◌, List, ◌==◌, eq_iff, arith, if◌then◌else◌, IsKeyed}
use frontkeep.Base.Float.{Float}
use frontkeep.Provision.Cascaded.{
  marked, mark_state-find, each-project, when_suspended, when_resumed, when_destroyed,
  mark_state-IsKeyed, mark_twice,
}
use frontkeep.Provision.Cascades.{
  nothing_done, Cascade, suspend_one, resume_one, destroy_one, suspend_project, resume_project,
  destroy_project_resources,
}
use frontkeep.Provision.Connectors.{Service}
use frontkeep.Provision.Manifest.{ProvisionError}
use frontkeep.Provision.Repo.{record_id, find_record, mark_state, ProvisionedRecord}
use frontkeep.Storage.Env.{Env}
use frontkeep.Workflow.Engine.{project_id}

module _ {F : Float} (svc : Service F) (error_text : ProvisionError → String) (env : Env) where
  suspend_one-find :
      (c : Cascade F) (rec : ProvisionedRecord F) (id : String)
      → find_record id (suspend_one svc error_text env c rec).0 ≡ (
          if rec.id == id && rec.state == "provisioned"
          then Option.map (marked env (when_suspended svc rec)) (find_record id c.0)
          else find_record id c.0)
  unfolding suspend_one
  suspend_one-find (rows, sum) rec id = ground (
    arith,
    mark_twice env rec.id "suspending" "suspended" id rows,
    mark_twice env rec.id "suspending" "provisioned" id rows,
    eq_iff rec.id id,
    eq_iff id rec.id,
  )

  resume_one-find :
      (c : Cascade F) (rec : ProvisionedRecord F) (id : String)
      → find_record id (resume_one svc error_text env c rec).0 ≡ (
          if rec.id == id && rec.state == "suspended"
          then Option.map (marked env (when_resumed svc rec)) (find_record id c.0)
          else find_record id c.0)
  unfolding resume_one
  resume_one-find (rows, sum) rec id = ground (
    arith,
    mark_twice env rec.id "resuming" "suspended" id rows,
    mark_twice env rec.id "resuming" "provisioned" id rows,
    eq_iff rec.id id,
    eq_iff id rec.id,
  )

  destroy_one-find :
      (c : Cascade F) (rec : ProvisionedRecord F) (id : String)
      → find_record id (destroy_one svc error_text env c rec).0 ≡ (
          if rec.id == id && not (rec.state == "destroyed")
          then Option.map (marked env (when_destroyed svc rec)) (find_record id c.0)
          else find_record id c.0)
  unfolding destroy_one
  destroy_one-find (rows, sum) rec id = ground (
    arith,
    mark_state-find env rec.id "destroyed" id rows,
    mark_twice env rec.id "destroying" "destroyed" id rows,
    mark_twice env rec.id "destroying" rec.state id rows,
    eq_iff rec.id id,
    eq_iff id rec.id,
  )

  pub suspend_one-IsKeyed :
      (c : Cascade F) (rec : ProvisionedRecord F)
      → IsKeyed record_id c.0
      → IsKeyed record_id (suspend_one svc error_text env c rec).0
  unfolding suspend_one
  suspend_one-IsKeyed (rows, sum) rec k =
      let k1 = mark_state-IsKeyed env rec.id "suspending" rows k in
      let rows1 = mark_state env rec.id "suspending" rows in
      ground (
        arith,
        k,
        mark_state-IsKeyed env rec.id "suspended" rows1 k1,
        mark_state-IsKeyed env rec.id "provisioned" rows1 k1,
      )

  -- In a table without two rows of an id: suspending a project puts its provisioned resources into
  -- the state `suspended` where their connector stops them and back into `provisioned` where it
  -- cannot or fails; every other resource, of this project or of another, is as before.
  pub suspend_project_lem :
      (project_id : String) (rows : List (ProvisionedRecord F)) (id : String)
      → IsKeyed record_id rows
      → find_record id (suspend_project svc error_text env project_id rows).0
        ≡ Option.map
            (λ row.
              if row.project_id == project_id && row.state == "provisioned"
              then marked env (when_suspended svc row) row
              else row)
            (find_record id rows)
  unfolding suspend_project
  suspend_project_lem project_id rows id k =
      each-project env (suspend_one svc error_text env) (λ rec. rec.state == "provisioned")
        (when_suspended svc) suspend_one-find project_id rows nothing_done id k

  pub resume_project_lem :
      (project_id : String) (rows : List (ProvisionedRecord F)) (id : String)
      → IsKeyed record_id rows
      → find_record id (resume_project svc error_text env project_id rows).0
        ≡ Option.map
            (λ row.
              if row.project_id == project_id && row.state == "suspended"
              then marked env (when_resumed svc row) row
              else row)
            (find_record id rows)
  unfolding resume_project
  resume_project_lem project_id rows id k =
      each-project env (resume_one svc error_text env) (λ rec. rec.state == "suspended")
        (when_resumed svc) resume_one-find project_id rows nothing_done id k

  -- In a table without two rows of an id: tearing a project down leaves each of its resources
  -- destroyed, except those whose connector fails, which stay in the state they were in; a linked
  -- resource is unlinked whatever a connector says. No resource of another project changes.
  pub destroy_project_resources_lem :
      (project_id : String) (rows : List (ProvisionedRecord F)) (id : String)
      → IsKeyed record_id rows
      → find_record id (destroy_project_resources svc error_text env project_id rows).0
        ≡ Option.map
            (λ row.
              if row.project_id == project_id && not (row.state == "destroyed")
              then marked env (when_destroyed svc row) row
              else row)
            (find_record id rows)
  unfolding destroy_project_resources
  destroy_project_resources_lem project_id rows id k =
      each-project env (destroy_one svc error_text env) (λ rec. not (rec.state == "destroyed"))
        (when_destroyed svc) destroy_one-find project_id rows nothing_done id k
