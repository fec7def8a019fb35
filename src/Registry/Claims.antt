-- ===== src/Registry/Claims.antt =====
-- crates/registry/src/review_jobs.rs: claims on the queue of jobs.
use frontkeep.Base.{
  ℕ, ◌≤◌, String, ◌≡◌, refl, subst, ◌⊎◌, inl, inr, Bool, true, none, some, List, [], ◌∷◌, ◌++◌,
  eq_iff, eq_refl, arith, Bool-cases, Option-cases, keep, All, All-keep, unwrap_or, is_some,
  rows_affected, rows_affected-update_where, row_of, IsKeyed, update_where-IsKeyed, sort, All-sort,
  oldest_first,
}
use frontkeep.Registry.ReviewJobs.{
  claim, job_id, is_pending, first, select_pending, still_pending, claimed_job, claim_turn,
  claim_next, JobRow, drained, claimed, lost,
}
use frontkeep.Storage.Env.{plus_seconds, Env}

-- The primary key: no two rows share an id.
abbrev pub IsUnique : List JobRow → Type 0
IsUnique rows = IsKeyed job_id rows

-- After one worker's claim, a claim of the same row touches nothing.
claim-again :
    (env env' : Env) (until until' : ℕ) (id : String) (rows : List JobRow)
    → (claim env' until' id (claim env until id rows).0).1 ≡ 0
unfolding claim
claim-again env env' until until' id rows =
    rows_affected-update_where (still_pending id) _ rows (λ row. ground arith)

absent-still_pending :
    (id : String) (rows : List JobRow)
    → row_of job_id id rows ≡ none
    → rows_affected (still_pending id) rows ≡ 0
absent-still_pending id [] h = refl
absent-still_pending id (row ∷ rows) h = ground (arith, absent-still_pending id rows)

-- A claim touches one row at most.
claim_once :
    (id : String) (rows : List JobRow) → IsUnique rows → rows_affected (still_pending id) rows ≤ 1
claim_once id [] u = omega arith
claim_once id (row ∷ rows) (free, u) =
    ground (arith, claim_once id rows u, absent-still_pending id rows, eq_iff row.id id)

-- Every pending row of a part of the table is found by a claim of its id.
pending_found :
    (whole rows : List JobRow)
    → ((id : String)
        → rows_affected (still_pending id) rows ≤ rows_affected (still_pending id) whole)
    → All (λ row. 1 ≤ rows_affected (still_pending row.id) whole) (keep is_pending rows)
pending_found whole [] part = tt
pending_found whole (row ∷ rows) part = elim (Bool-cases (is_pending row)) [
  | inl here ↦ rw here (
    ground (arith, part row.id, eq_refl row.id),
    pending_found whole rows (λ id. ground (arith, part id)),
  )
  | inr not_here ↦ rw not_here (pending_found whole rows (λ id. ground (arith, part id)))
]

first-All :
    (P : JobRow → Type 0) (rows : List JobRow) (row : JobRow)
    → All P rows
    → first rows ≡ some row
    → P row
first-All P [] row h e = cc
first-All P (r ∷ rows) row (h, hs) e = subst (λ o. P (unwrap_or o row)) e h

-- The row that a turn selects is pending, and a claim of it touches a row.
pub selected :
    (rows : List JobRow) (row : JobRow)
    → select_pending rows ≡ some row
    → (is_pending row ≡ true) × (1 ≤ rows_affected (still_pending row.id) rows)
unfolding select_pending
selected rows row h =
    let before : JobRow → JobRow → Bool = oldest_first (λ r. r.created_at) in
    let pending = keep is_pending rows in
    let P : JobRow → Type 0 = λ r. is_pending r ≡ true in
    let Q : JobRow → Type 0 = λ r. 1 ≤ rows_affected (still_pending r.id) rows in
    (
      first-All P (sort before pending) row
          (All-sort before P pending (All-keep P is_pending rows (λ r e. e))) h,
      first-All Q (sort before pending) row
          (All-sort before Q pending (pending_found rows rows (λ id. omega arith))) h,
    )

-- Two workers that selected the same job do not both get it: whichever claims first, the other's
-- claim touches no row, so its turn is lost and its loop goes on.
pub claim_turn-lost :
    (env env' : Env) (until until' : ℕ) (rows : List JobRow) (row : JobRow)
    → select_pending rows ≡ some row
    → (claim_turn env' until' (λ now. (claim env until row.id now).0) rows).1 ≡ lost
unfolding claim_turn
claim_turn-lost env env' until until' rows row h =
    rw (h, claim_turn) (ground (arith, claim-again env env' until until' row.id rows))

-- A turn that nobody interferes with ends the loop, if no two jobs share an id: the queue has no
-- pending job and is left as it is, or the selected one, the oldest of the pending, is this
-- worker's, with one attempt more.
pub claim_turn-quiet :
    (env : Env) (until : ℕ) (rows : List JobRow)
    → IsUnique rows
    → ((select_pending rows ≡ none) × (claim_turn env until (λ now. now) rows ≡ (rows, drained)))
      ⊎ ((row : JobRow) × (select_pending rows ≡ some row)
          × (claim_turn env until (λ now. now) rows
              ≡ ((claim env until row.id rows).0, claimed (claimed_job row))))
unfolding claim_turn claim
claim_turn-quiet env until rows u = elim (Option-cases (select_pending rows)) [
  | inl empty_queue ↦ inl (empty_queue, rw (empty_queue, claim_turn) refl)
  | inr (row, found) ↦
      let one = claim_once row.id rows u in
      let (pending, some_row) = selected rows row found in
      inr (row, found, rw (found, claim_turn) (ground arith))
]

pub claim-IsUnique :
    (env : Env) (until : ℕ) (id : String) (rows : List JobRow)
    → IsUnique rows
    → IsUnique (claim env until id rows).0
unfolding claim
claim-IsUnique env until id rows u =
    update_where-IsKeyed job_id (still_pending id) _ rows (λ row. refl) u

claim_turn-IsUnique :
    (env : Env) (until : ℕ) (between : List JobRow → List JobRow) (rows : List JobRow)
    → IsUnique rows
    → IsUnique (between rows)
    → IsUnique (claim_turn env until between rows).0
unfolding claim_turn
claim_turn-IsUnique env until between rows u v = elim (Option-cases (select_pending rows)) [
  | inl empty_queue ↦ rw (empty_queue, claim_turn) u
  | inr (row, found) ↦ rw (found, claim_turn) (claim-IsUnique env until row.id (between rows) v)
]

-- `claim_next` returns, at the latest in a turn that nobody interferes with, however many turns it
-- lost before and whatever the other workers did in them, if they kept the ids apart.
pub claim_next-returns :
    (env : Env) (lease_secs : ℕ) (turns : List (List JobRow → List JobRow)) (rows : List JobRow)
    → IsUnique rows
    → All (λ between. (rs : List JobRow) → IsUnique rs → IsUnique (between rs)) turns
    → is_some (claim_next env lease_secs (turns ++ (λ now. now) ∷ []) rows).1 ≡ true
unfolding claim_next
claim_next-returns env lease_secs [] rows u keeps =
    elim (claim_turn-quiet env (plus_seconds env.now lease_secs) rows u) [
      | inl (nothing, ends) ↦ rw (ends, claim_next) refl
      | inr (row, found, ends) ↦ rw (ends, claim_next) refl
    ]
claim_next-returns env lease_secs (between ∷ turns) rows u (keep_one, keeps) =
    let turn = claim_turn env (plus_seconds env.now lease_secs) between rows in
    let v =
      claim_turn-IsUnique env (plus_seconds env.now lease_secs) between rows u (keep_one rows u) in
    ground (arith, claim_next-returns env lease_secs turns turn.0 v keeps)
