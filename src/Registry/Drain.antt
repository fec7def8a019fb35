-- ===== src/Registry/Drain.antt =====
-- crates/registry/src/lib.rs: a worker's pass over the queue of review jobs, by a worker that is
-- alone. The texts of errors are an argument.
use mathlib.Core.Option
use frontkeep.Base.{
  ℕ, zero, suc, ◌+◌, String, Bool, true, false, Option, none, some, List, if◌then◌else◌, length,
  Result, err, ok,
}
use frontkeep.Base.Float.{Float}
use frontkeep.Registry.Finalize.{Panel, run_review_job, fail_review_closed}
use frontkeep.Registry.Outcomes.{RegistryDb}
use frontkeep.Registry.Records.{Registration}
use frontkeep.Registry.ReviewJobs.{
  finish, reclaim_stale, claim_turn, fail, ReviewJob, JobRow, Turn, drained, claimed, lost,
}
use frontkeep.Registry.Tiers.{RegistryError, ClassificationRequirements}
use frontkeep.Storage.Env.{plus_seconds, Env}
use frontkeep.Workflow.Engine.{WorkflowRequest}

module _ {F : Float} (error_text : RegistryError → String)
    (require_active : String → Result RegistryError (Registration F))
    (reqs : ClassificationRequirements) (panel : Option (Panel F)) where
  -- After a job has run: its row, and whether the pass goes on.
  abbrev pub booked :
      Env → ReviewJob → RegistryDb × Result RegistryError WorkflowRequest → RegistryDb × Bool
  booked env job (db, ok req) = (record db { jobs = finish env job.id db.jobs }, true)
  booked env job (db, err e) =
      let (jobs, terminal) = fail env job.id (error_text e) job.attempts 3 db.jobs in
      let db' = record db { jobs = jobs } in
      if terminal then ((fail_review_closed env job (error_text e) db').0, true) else (db', false)

  abbrev pub counted : RegistryDb × Bool → RegistryDb × Option ℕ → RegistryDb × Option ℕ
  counted (db, true) (db', done) = (db', Option.map (λ n. n + 1) done)
  counted (db, false) later = (db, some 0)

  abbrev pub run_claimed : Env → ReviewJob → RegistryDb → RegistryDb × Bool
  run_claimed env job db = booked env job (run_review_job env require_active reqs panel job db)

  -- A round after its claim, with the rounds that may follow.
  abbrev pub after_turn :
      Env
      → (RegistryDb → RegistryDb × Option ℕ)
      → RegistryDb
      → List JobRow × Turn
      → RegistryDb × Option ℕ
  after_turn env later db (jobs, drained) = (record db { jobs = jobs }, some 0)
  after_turn env later db (jobs, lost) = (record db { jobs = jobs }, none)
  after_turn env later db (jobs, claimed job) =
      let pass = run_claimed env job (record db { jobs = jobs }) in counted pass (later pass.0)

  -- The loop, with the clock and the ids of each round and the number of rounds it may still make.
  -- It has no number of jobs where it has not ended in them.
  unfoldable pub drain : (ℕ → Env) → ℕ → RegistryDb → RegistryDb × Option ℕ
  drain envs zero db = (db, none)
  drain envs (suc fuel) db =
      let env = envs fuel in
      after_turn env (λ db'. drain envs fuel db') db
        (claim_turn env (plus_seconds env.now 600) (λ now. now) db.jobs)

  -- `drain_reviews`: one round for each job and one more that finds nothing are enough.
  unfoldable pub drain_reviews : (ℕ → Env) → RegistryDb → RegistryDb × Option ℕ
  drain_reviews envs db =
      drain envs (length db.jobs + 1)
        (record db { jobs = (reclaim_stale (envs (length db.jobs + 1)) db.jobs).0 })
