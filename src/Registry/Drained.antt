-- ===== src/Registry/Drained.antt =====
-- crates/registry/src/lib.rs: how a pass over the queue of review jobs comes to its end.
use frontkeep.Base.{
  ℕ, zero, suc, ◌+◌, ◌≤◌, String, ◌≡◌, refl, sym, subst, inl, inr, Bool, true, false, Option, none,
  some, List, arith, Bool-cases, Option-cases, length, is_some, Result, err, ok,
}
use frontkeep.Base.Float.{Float}
use frontkeep.Registry.Claims.{IsUnique, selected, claim_turn-quiet, claim-IsUnique}
use frontkeep.Registry.Drain.{booked, counted, after_turn, drain, drain_reviews}
use frontkeep.Registry.Finalize.{
  on_workflow, flag_summary, log_flagged, route, finalize_promotion, Panel, run_reviewing, reviewed,
  run_review_job, failed_outcome, fail_review_closed,
}
use frontkeep.Registry.Outcomes.{pre_review_state, persist_reviews, ReviewerOutcome, RegistryDb}
use frontkeep.Registry.Pending.{
  pending_jobs, pending_jobs-length, pending_jobs-claim, reclaim_stale-IsUnique,
  length-update_where, finish_lem, fail_lem,
}
use frontkeep.Registry.Records.{Registration}
use frontkeep.Registry.ReviewJobs.{
  claim, reclaim_stale, is_stale, claimed_job, fail, ReviewJob, JobRow, Turn, claimed,
}
use frontkeep.Registry.Tiers.{RegistryError, ClassificationRequirements}
use frontkeep.Storage.Env.{plus_seconds, Env}
use frontkeep.Workflow.Engine.{project_id, get, WorkflowRequest}
use frontkeep.Workflow.State.{is_state, State, reviewing}
use frontkeep.Workflow.Transitions.{Outcome, flag, resolve_review}

-- A review changes no job.
log_flagged-jobs :
    (env : Env) (project_id target : String) (outcome : ReviewerOutcome) (actor : String)
    (out : RegistryDb × Result RegistryError WorkflowRequest)
    → (log_flagged env project_id target outcome actor out).0.jobs ≡ out.0.jobs
log_flagged-jobs env project_id target outcome actor (db, err e) = refl
log_flagged-jobs env project_id target outcome actor (db, ok req) = refl

on_workflow-jobs : (db : RegistryDb) (out : Outcome) → (on_workflow db out).0.jobs ≡ db.jobs
on_workflow-jobs db (err e) = refl
on_workflow-jobs db (ok (w, req)) = refl

route-jobs :
    (env : Env) (req : WorkflowRequest) (project_id target : String) (clean_state : State)
    (outcome : ReviewerOutcome) (has_exception : Bool) (actor : String) (db : RegistryDb)
    → (route env req project_id target clean_state outcome has_exception actor db).0.jobs ≡ db.jobs
unfolding route
route-jobs env req project_id target clean_state outcome has_exception actor db =
    let flagging = on_workflow db (flag env req.id actor (flag_summary outcome) db.workflow) in
    ground (
      arith,
      log_flagged-jobs env project_id target outcome actor (db, ok req),
      log_flagged-jobs env project_id target outcome actor flagging,
      on_workflow-jobs db (flag env req.id actor (flag_summary outcome) db.workflow),
      on_workflow-jobs db
          (resolve_review env req.id clean_state "review passed; no findings" actor db.workflow),
    )

finalize_promotion-jobs :
    (env : Env) (req : WorkflowRequest) (project_id target : String) (clean_state : State)
    (outcome : ReviewerOutcome) (has_exception : Bool) (actor : String) (db : RegistryDb)
    → (finalize_promotion env req project_id target clean_state outcome has_exception actor
        db).0.jobs
      ≡ db.jobs
unfolding finalize_promotion persist_reviews
finalize_promotion-jobs env req project_id target clean_state outcome has_exception actor db =
    route-jobs env req project_id target clean_state outcome has_exception actor
      (persist_reviews req.id project_id outcome db)

fail_review_closed-jobs :
    (env : Env) (job : ReviewJob) (error : String) (db : RegistryDb)
    → (fail_review_closed env job error db).0.jobs ≡ db.jobs
unfolding fail_review_closed
fail_review_closed-jobs env job error db = elim (Option-cases (get job.request_id db.workflow)) [
  | inl missing ↦ ground (arith, missing)
  | inr (req, found) ↦ ground (
    arith,
    found,
    finalize_promotion-jobs env req job.project_id job.target (pre_review_state req)
        (failed_outcome error) true "system" db,
  )
]

module _ {F : Float} (error_text : RegistryError → String)
    (require_active : String → Result RegistryError (Registration F))
    (reqs : ClassificationRequirements) (panel : Option (Panel F)) where
  reviewed-jobs :
      (env : Env) (job : ReviewJob) (req : WorkflowRequest) (db : RegistryDb)
      (r : Result RegistryError (Registration F))
      → (reviewed env reqs panel job req db r).0.jobs ≡ db.jobs
  unfolding run_reviewing
  reviewed-jobs env job req db (err e) = refl
  reviewed-jobs env job req db (ok reg) = finalize_promotion-jobs env _ _ _ _ _ _ _ _

  run_review_job-jobs :
      (env : Env) (job : ReviewJob) (db : RegistryDb)
      → (run_review_job env require_active reqs panel job db).0.jobs ≡ db.jobs
  unfolding run_review_job
  run_review_job-jobs env job db = elim (Option-cases (get job.request_id db.workflow)) [
    | inl missing ↦ ground (arith, missing)
    | inr (req, found) ↦ elim (Bool-cases (is_state req.state reviewing)) [
      | inl here ↦
          rw (found, run_review_job, here)
            (reviewed-jobs env job req db (require_active job.project_id))
      | inr done ↦ ground (arith, found, done)
    ]
  ]

  -- After a job that does not stop the pass no more jobs are pending than before.
  booked_lem :
      (env : Env) (job : ReviewJob) (out : RegistryDb × Result RegistryError WorkflowRequest)
      → IsUnique out.0.jobs
      → (booked error_text require_active reqs panel env job out).1 ≡ true
      → IsUnique (booked error_text require_active reqs panel env job out).0.jobs
        × (pending_jobs (booked error_text require_active reqs panel env job out).0.jobs
            ≤ pending_jobs out.0.jobs)
  booked_lem env job (db, ok req) u on = finish_lem env job.id db.jobs u
  booked_lem env job (db, err e) u on =
      elim (Bool-cases (fail env job.id (error_text e) job.attempts 3 db.jobs).1) [
        | inl terminal ↦
            rw
              (
                terminal,
                fail_review_closed-jobs env job (error_text e) (record db {
                  jobs = (fail env job.id (error_text e) job.attempts 3 db.jobs).0;
                }),
              )
              (fail_lem env job.id (error_text e) job.attempts db.jobs terminal u)
        | inr more ↦ ground (arith, more)
      ]

  counted-returns :
      (pass : RegistryDb × Bool) (later : RegistryDb × Option ℕ)
      → (pass.1 ≡ true → is_some later.1 ≡ true)
      → is_some (counted error_text require_active reqs panel pass later).1 ≡ true
  counted-returns (db, true) (db', some done) h = refl
  counted-returns (db, true) (db', none) h = h refl
  counted-returns (db, false) later h = refl

  drain-returns :
      (envs : ℕ → Env) (fuel : ℕ) (db : RegistryDb)
      → IsUnique db.jobs
      → suc (pending_jobs db.jobs) ≤ fuel
      → is_some (drain error_text require_active reqs panel envs fuel db).1 ≡ true
  unfolding drain
  drain-returns envs zero db u enough = ground (arith, enough)
  drain-returns envs (suc fuel) db u enough =
      let env = envs fuel in
      let until = plus_seconds env.now 600 in
      let ended : List JobRow × Turn → Type 0 = λ turn.
        is_some
          (after_turn error_text require_active reqs panel env
            (λ db'. drain error_text require_active reqs panel envs fuel db') db turn).1
        ≡ true in
      elim (claim_turn-quiet env until db.jobs u) [
        | inl (nothing, ends) ↦ subst ended (sym ends) refl
        | inr (row, found, ends) ↦
            let job = claimed_job row in
            let jobs = (claim env until row.id db.jobs).0 in
            let db' = record db { jobs = jobs } in
            let out = run_review_job env require_active reqs panel job db' in
            let pass = booked error_text require_active reqs panel env job out in
            let same = run_review_job-jobs env job db' in
            let u' : IsUnique out.0.jobs =
              subst IsUnique (sym same) (claim-IsUnique env until row.id db.jobs u) in
            let (pending, touched) = selected db.jobs row found in
            subst ended {x = (jobs, claimed job)} (sym ends) (
              counted-returns pass (drain error_text require_active reqs panel envs fuel pass.0)
                (λ on.
                  let (v, fewer) = booked_lem env job out u' on in
                  let fewer' : pending_jobs pass.0.jobs ≤ pending_jobs jobs =
                    subst (λ js. pending_jobs pass.0.jobs ≤ pending_jobs js) same fewer in
                  drain-returns envs fuel pass.0 v (
                    omega (
                      arith,
                      enough,
                      touched,
                      fewer',
                      pending_jobs-claim env until row.id db.jobs,
                    ))))
      ]

  -- A pass over the queue by a worker that is alone ends, whatever the reviews of the jobs give, if
  -- no two jobs share an id: one round for each job that the queue holds and one more are enough.
  pub drain_reviews-returns :
      (envs : ℕ → Env) (db : RegistryDb)
      → IsUnique db.jobs
      → is_some (drain_reviews error_text require_active reqs panel envs db).1 ≡ true
  unfolding drain_reviews reclaim_stale
  drain_reviews-returns envs db u =
      let env = envs (length db.jobs + 1) in
      let jobs = (reclaim_stale env db.jobs).0 in
      drain-returns envs (length db.jobs + 1) (record db { jobs = jobs })
        (reclaim_stale-IsUnique env db.jobs u)
        (omega (
          arith,
          pending_jobs-length jobs,
          length-update_where (is_stale env.now)
              (λ row. record row { status = "pending"; lease_until = none; updated_at = env.now })
              db.jobs,
        ))
