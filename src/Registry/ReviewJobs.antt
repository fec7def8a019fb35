-- ===== src/Registry/ReviewJobs.antt =====
-- crates/registry/src/review_jobs.rs: the queue of code-review jobs. `claim_next` selects a pending
-- row and then updates it if it is still pending; what other workers do between the two statements
-- is an argument of each turn of its loop.
use mathlib.Core.Option
use frontkeep.Base.{
  ℕ, ◌+◌, String, Bool, false, ◌&&◌, Option, none, some, List, [], ◌∷◌, ◌++◌, ◌==◌, ltb, leb, eqb,
  if◌then◌else◌, keep, update_where, rows_affected, by_key, sort, newest_first, oldest_first,
}
use frontkeep.Storage.Env.{plus_seconds, Env}

pub record ReviewJob : Type 0 where
  pub id : String
  pub request_id : String
  pub project_id : String
  pub target : String
  pub status : String
  pub attempts : ℕ

-- A row of `review_jobs`
pub record JobRow : Type 0 where
  pub id : String
  pub request_id : String
  pub project_id : String
  pub target : String
  pub status : String
  pub attempts : ℕ
  pub lease_until : Option ℕ
  pub last_error : Option String
  pub created_at : ℕ
  pub updated_at : ℕ

abbrev pub job_id : JobRow → String
job_id row = row.id

unfoldable pub enqueue :
    Env → (request_id project_id target : String) → List JobRow → List JobRow × String
enqueue env request_id project_id target rows = (
  rows
      ++ record {
        id = env.uid;
        request_id = request_id;
        project_id = project_id;
        target = target;
        status = "pending";
        attempts = 0;
        lease_until = none;
        last_error = none;
        created_at = env.now;
        updated_at = env.now;
      }
        ∷ [],
  env.uid,
)

abbrev pub lapsed : ℕ → Option ℕ → Bool
lapsed now none = false
lapsed now (some until) = ltb until now

abbrev pub is_stale : ℕ → JobRow → Bool
is_stale now row = row.status == "running" && lapsed now row.lease_until

unfoldable pub reclaim_stale : Env → List JobRow → List JobRow × ℕ
reclaim_stale env rows = (
  update_where (is_stale env.now)
      (λ row. record row { status = "pending"; lease_until = none; updated_at = env.now }) rows,
  rows_affected (is_stale env.now) rows,
)

abbrev pub is_pending : JobRow → Bool
is_pending row = row.status == "pending"

abbrev pub first : List JobRow → Option JobRow
first [] = none
first (row ∷ rows) = some row

-- The first statement of a turn: the oldest pending row.
unfoldable pub select_pending : List JobRow → Option JobRow
select_pending rows = first (sort (oldest_first (λ row. row.created_at)) (keep is_pending rows))

abbrev pub still_pending : String → JobRow → Bool
still_pending id row = row.id == id && is_pending row

-- The second: the row becomes this worker's if it is still pending.
unfoldable pub claim : Env → ℕ → String → List JobRow → List JobRow × ℕ
claim env lease_until id rows = (
  update_where (still_pending id)
      (λ row. record row {
        status = "running";
        lease_until = some lease_until;
        attempts = row.attempts + 1;
        updated_at = env.now;
      })
      rows,
  rows_affected (still_pending id) rows,
)

-- How a turn of the loop ends.
pub data Turn : Type 0 where
  drained : Turn
  claimed : ReviewJob → Turn
  lost : Turn

abbrev pub claimed_job : JobRow → ReviewJob
claimed_job row = record {
  id = row.id;
  request_id = row.request_id;
  project_id = row.project_id;
  target = row.target;
  status = "running";
  attempts = row.attempts + 1;
}

unfoldable pub claim_turn : Env → ℕ → (List JobRow → List JobRow) → List JobRow → List JobRow × Turn
claim_turn env lease_until between rows = elim (select_pending rows) [
  | none ↦ (rows, drained)
  | some row ↦
      let (rows', affected) = claim env lease_until row.id (between rows) in
      (rows', if eqb affected 1 then claimed (claimed_job row) else lost)
]

abbrev finished : List JobRow × Turn → Option (Option ReviewJob)
finished (rows, drained) = some none
finished (rows, claimed job) = some (some job)
finished (rows, lost) = none

-- `claim_next` through the turns of its loop: what it returns, or none while it still loops.
unfoldable pub claim_next :
    Env
    → ℕ
    → List (List JobRow → List JobRow)
    → List JobRow
    → List JobRow × Option (Option ReviewJob)
claim_next env lease_secs [] rows = (rows, none)
claim_next env lease_secs (between ∷ turns) rows =
    let turn = claim_turn env (plus_seconds env.now lease_secs) between rows in
    let later = claim_next env lease_secs turns turn.0 in
    elim (finished turn) [ some answer ↦ (turn.0, some answer) | none ↦ later ]

unfoldable pub finish : Env → String → List JobRow → List JobRow
finish env id rows =
    update_where (by_key job_id id)
      (λ row. record row { status = "done"; lease_until = none; updated_at = env.now }) rows

unfoldable pub fail : Env → String → String → ℕ → ℕ → List JobRow → List JobRow × Bool
fail env id error attempts max_attempts rows =
    let terminal = leb max_attempts attempts in
    (
      update_where (by_key job_id id)
          (λ row. record row {
            status = if terminal then "failed" else "pending";
            lease_until = none;
            last_error = some error;
            updated_at = env.now;
          })
          rows,
      terminal,
    )

abbrev job_of_row : JobRow → ReviewJob
job_of_row row = record {
  id = row.id;
  request_id = row.request_id;
  project_id = row.project_id;
  target = row.target;
  status = row.status;
  attempts = row.attempts;
}

unfoldable pub latest_for_request : String → List JobRow → Option ReviewJob
latest_for_request request_id rows = Option.map job_of_row (
    first (
      sort (newest_first (λ row. row.created_at))
        (keep (λ row. row.request_id == request_id) rows)))
