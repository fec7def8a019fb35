-- ===== src/Provision/Resumed.antt =====
-- crates/provision/src/lib.rs: a project that is suspended and resumed.
mod Tests
use mathlib.Core.Option
use frontkeep.Base.{
  String, ◌≡◌, refl, sym, ap, ◌⊎◌, inl, inr, Bool, true, false, ◌&&◌, Option, List, ◌==◌, eq_iff,
  arith, if◌then◌else◌, Bool-cases, Option-cases, is_ok, Result, err, ok, is_hit, IsKeyed,
}
use frontkeep.Base.Float.{Float}
use frontkeep.Policy.Cedar.{error_text}
use frontkeep.Provision.Cascaded.{
  marked, suspended_state, resumed_state, when_suspended, when_resumed, each-IsKeyed,
}
use frontkeep.Provision.Cascades.{
  nothing_done, stop_of, resume_of, suspend_one, suspend_project, resume_project,
}
use frontkeep.Provision.Connectors.{Service}
use frontkeep.Provision.Manifest.{ProvisionError}
use frontkeep.Provision.Queries.{first, list_by_project}
use frontkeep.Provision.Repo.{record_id, find_record, ProvisionedRecord}
use frontkeep.Provision.Suspended.{suspend_one-IsKeyed, suspend_project_lem, resume_project_lem}
use frontkeep.Storage.Env.{Env}

module _ {F : Float} where
  -- A record but for the time of its last change.
  abbrev pub untimed : ProvisionedRecord F → ProvisionedRecord F
  untimed row = record row { updated_at = 0 }

module _ {F : Float} (svc : Service F) (error_text : ProvisionError → String) (env env' : Env) where
  abbrev to_suspended : String → ProvisionedRecord F → ProvisionedRecord F
  to_suspended project row =
      if row.project_id == project && row.state == "provisioned"
      then marked env (when_suspended svc row) row
      else row

  abbrev to_resumed : String → ProvisionedRecord F → ProvisionedRecord F
  to_resumed project row =
      if row.project_id == project && row.state == "suspended"
      then marked env' (when_resumed svc row) row
      else row

  resumed_ok :
      (answer : Result ProvisionError Bool)
      → is_ok answer ≡ true
      → resumed_state answer ≡ "provisioned"
  resumed_ok (err e) h = cc
  resumed_ok (ok b) h = refl

  suspended-cases :
      (answer : Result ProvisionError Bool)
      → (suspended_state answer ≡ "suspended") ⊎ (suspended_state answer ≡ "provisioned")
  suspended-cases (err e) = inr refl
  suspended-cases (ok false) = inr refl
  suspended-cases (ok true) = inl refl

  restored :
      (project : String) (row : ProvisionedRecord F)
      → ((rec : ProvisionedRecord F) → is_ok (resume_of svc rec) ≡ true)
      → (row.state == "suspended") ≡ false
      → untimed (to_resumed project (to_suspended project row)) ≡ untimed row
  restored project row willing awake =
      elim (Bool-cases (row.project_id == project && row.state == "provisioned")) [
        | inr other ↦ ground (arith, other, awake)
        | inl mine ↦
            let live : row.state ≡ "provisioned" =
              ground (arith, mine, eq_iff row.state "provisioned") in
            let here : (row.project_id == project) ≡ true = ground (arith, mine) in
            elim (suspended-cases (stop_of svc row)) [
              | inr kept ↦ rw (mine, kept, here) (ap (λ s. untimed (marked env s row)) (sym live))
              | inl down ↦
                  let woken =
                    resumed_ok (resume_of svc (marked env "suspended" row))
                      (willing (marked env "suspended" row)) in
                  rw (mine, down, here, woken) (ap (λ s. untimed (marked env s row)) (sym live))
            ]
      ]

  -- In a table without two rows of an id, and with connectors that resume whatever they are asked to:
  -- suspending a project and then resuming it leaves every resource as it was before, but for the
  -- time of its last change, if it was not suspended before.
  pub resume_project-suspend_project :
      (project : String) (rows : List (ProvisionedRecord F)) (id : String)
      → ((rec : ProvisionedRecord F) → is_ok (resume_of svc rec) ≡ true)
      → IsKeyed record_id rows
      → is_hit (λ row. row.state == "suspended") (find_record id rows) ≡ false
      → Option.map untimed (
          find_record id
            (resume_project svc error_text env' project
              (suspend_project svc error_text env project rows).0).0)
        ≡ Option.map untimed (find_record id rows)
  unfolding suspend_project
  resume_project-suspend_project project rows id willing k awake =
      let left = (suspend_project svc error_text env project rows).0 in
      let k1 : IsKeyed record_id left =
        each-IsKeyed env (suspend_one svc error_text env) (suspend_one-IsKeyed svc error_text env)
          (rows, nothing_done) (list_by_project project rows) k in
      let first = suspend_project_lem svc error_text env project rows id k in
      let second = resume_project_lem svc error_text env' project left id k1 in
      elim (Option-cases (find_record id rows)) [
        | inl missing ↦ ground (arith, second, first, missing)
        | inr (row, found) ↦ ground (
          arith,
          second,
          first,
          found,
          restored project row willing (ground (arith, found, awake)),
        )
      ]
