-- ===== src/Registry/Pending.antt =====
-- crates/registry/src/review_jobs.rs: how many jobs wait, after each statement on the queue.
use frontkeep.Base.{
  ℕ, ◌+◌, ◌≤◌, String, ◌≡◌, refl, inl, inr, Bool, true, false, none, some, List, [], ◌∷◌, arith,
  leb, if◌then◌else◌, Bool-cases, length, update_where, rows_affected, by_key, update_where-IsKeyed,
}
use frontkeep.Registry.Claims.{IsUnique}
use frontkeep.Registry.ReviewJobs.{
  claim, finish, reclaim_stale, job_id, is_pending, still_pending, fail, JobRow,
}
use frontkeep.Storage.Env.{Env}

abbrev pub pending_jobs : List JobRow → ℕ
pending_jobs rows = rows_affected is_pending rows

pub pending_jobs-length : (rows : List JobRow) → pending_jobs rows ≤ length rows
pending_jobs-length [] = omega arith
pending_jobs-length (row ∷ rows) = ground (arith, pending_jobs-length rows)

-- A claim takes the jobs that it touches off the pending ones.
pub pending_jobs-claim :
    (env : Env) (until : ℕ) (id : String) (rows : List JobRow)
    → pending_jobs (claim env until id rows).0 + rows_affected (still_pending id) rows
      ≡ pending_jobs rows
unfolding claim
pending_jobs-claim env until id [] = refl
pending_jobs-claim env until id (row ∷ rows) =
    let rest = pending_jobs-claim env until id rows in
    elim (Bool-cases (still_pending id row)) [
      | inl hit ↦ rw hit (ground (arith, hit, rest))
      | inr miss ↦ rw miss (ground (arith, miss, rest))
    ]

-- An update that sets no job to pending.
pending_jobs-update :
    (p : JobRow → Bool) (f : JobRow → JobRow) (rows : List JobRow)
    → ((row : JobRow) → is_pending (f row) ≡ false)
    → pending_jobs (update_where p f rows) ≤ pending_jobs rows
pending_jobs-update p f [] h = omega arith
pending_jobs-update p f (row ∷ rows) h = ground (arith, h row, pending_jobs-update p f rows h)

pub reclaim_stale-IsUnique :
    (env : Env) (rows : List JobRow) → IsUnique rows → IsUnique (reclaim_stale env rows).0
unfolding reclaim_stale
reclaim_stale-IsUnique env rows u = update_where-IsKeyed job_id _ _ rows (λ row. refl) u

pub length-update_where {ℓ} :
    {A : Type ℓ} (p : A → Bool) (f : A → A) (xs : List A) → length (update_where p f xs) ≡ length xs
length-update_where p f [] = refl
length-update_where p f (x ∷ xs) = ground (arith, length-update_where p f xs)

-- A job's row that is written with a status other than pending.
written_lem :
    (id : String) (write : JobRow → JobRow) (rows : List JobRow)
    → ((row : JobRow) → (write row).id ≡ row.id)
    → ((row : JobRow) → is_pending (write row) ≡ false)
    → IsUnique rows
    → IsUnique (update_where (by_key job_id id) write rows)
      × (pending_jobs (update_where (by_key job_id id) write rows) ≤ pending_jobs rows)
written_lem id write rows same off u = (
  update_where-IsKeyed job_id (by_key job_id id) write rows same u,
  pending_jobs-update (by_key job_id id) write rows off,
)

pub finish_lem :
    (env : Env) (id : String) (rows : List JobRow)
    → IsUnique rows
    → IsUnique (finish env id rows) × (pending_jobs (finish env id rows) ≤ pending_jobs rows)
unfolding finish
finish_lem env id rows u =
    written_lem id (λ row. record row { status = "done"; lease_until = none; updated_at = env.now })
      rows (λ row. refl) (λ row. refl) u

pub fail_lem :
    (env : Env) (id error : String) (attempts : ℕ) (rows : List JobRow)
    → (fail env id error attempts 3 rows).1 ≡ true
    → IsUnique rows
    → IsUnique (fail env id error attempts 3 rows).0
      × (pending_jobs (fail env id error attempts 3 rows).0 ≤ pending_jobs rows)
unfolding fail
fail_lem env id error attempts rows terminal u =
    written_lem id
      (λ row. record row {
        status = if leb 3 attempts then "failed" else "pending";
        lease_until = none;
        last_error = some error;
        updated_at = env.now;
      })
      rows (λ row. refl) (λ row. rw terminal refl) u
