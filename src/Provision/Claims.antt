-- ===== src/Provision/Claims.antt =====
-- crates/provision/src/repo.rs: claims on a row that has been claimed.
use mathlib.Core.Option
use frontkeep.Base.{
  ℕ, ◌≤◌, String, ◌≡◌, refl, inl, inr, Bool, true, false, ◌&&◌, some, List, [], ◌∷◌, ◌==◌, eq_iff,
  eq_refl, arith, leb, if◌then◌else◌, Option-cases, All, is_hit, IsKeyed, row_of-update_if,
  keyed-rows_affected, update_where-IsKeyed,
}
use frontkeep.Base.Float.{Float}
use frontkeep.Provision.Repo.{
  is_owner, record_id, find_record, is_abandoned, is_claimable, claim, heartbeat, ProvisionedRecord,
}
use frontkeep.Provision.Worker.{stale_cutoff}
use frontkeep.Storage.Env.{Env}

module _ {F : Float} where
  -- In a table without two rows of an id: a claim succeeds exactly when there is a row of the id in
  -- the expected state that nobody has claimed or whose last heartbeat is older than the cutoff.
  -- The row is then the caller's, with a heartbeat at the time of the call, and no other row
  -- changes; a claim that fails changes none.
  pub claim_lem :
      (env : Env) (id expect_state owner : String) (stale : ℕ) (rows : List (ProvisionedRecord F))
      → IsKeyed record_id rows
      → ((claim env id expect_state owner stale rows).1
          ≡ is_hit
              (λ row. row.state == expect_state && is_abandoned stale row)
              (find_record id rows))
        × ((other : String)
            → find_record other (claim env id expect_state owner stale rows).0 ≡ (
                if other == id && (claim env id expect_state owner stale rows).1
                then Option.map {A = ProvisionedRecord F}
                    (λ row. record row { worker_owner = some owner; updated_at = env.now })
                    (find_record id rows)
                else find_record other rows))
  unfolding claim
  claim_lem env id expect_state owner stale rows k =
      let q : ProvisionedRecord F → Bool =
        λ row. row.state == expect_state && is_abandoned stale row in
      let p = is_claimable id expect_state stale in
      let write : ProvisionedRecord F → ProvisionedRecord F =
        λ row. record row { worker_owner = some owner; updated_at = env.now } in
      let same : (row : ProvisionedRecord F) → p row ≡ (record_id row == id && q row) =
        λ row. ground arith in
      let won = keyed-rows_affected record_id p q id same rows k in
      (
        won,
        λ other. elim (Option-cases (find_record id rows)) [
          | inl missing ↦ ground (
            arith,
            won,
            missing,
            row_of-update_if record_id p q id same write other rows (λ row. refl),
            eq_iff other id,
          )
          | inr (row, found) ↦ ground (
            arith,
            won,
            found,
            row_of-update_if record_id p q id same write other rows (λ row. refl),
            eq_iff other id,
          )
        ],
      )

-- A call by some worker: a claim, with the cutoff that its clock gives, or a heartbeat.
pub data WorkerCall : Type 0 where
  claims : Env → (id expect_state owner : String) → WorkerCall
  beats : Env → (id owner : String) → WorkerCall

-- A call at a time when a heartbeat of the instant is not stale.
abbrev pub is_timely : ℕ → WorkerCall → Bool
is_timely t (claims env id expect_state owner) = leb (stale_cutoff env) t
is_timely t (beats env id owner) = leb t env.now

module _ {F : Float} where
  unfoldable pub step : List (ProvisionedRecord F) → WorkerCall → List (ProvisionedRecord F)
  step rows (claims env id expect_state owner) =
      (claim env id expect_state owner (stale_cutoff env) rows).0
  step rows (beats env id owner) = heartbeat env id owner rows

  unfoldable pub run : List (ProvisionedRecord F) → List WorkerCall → List (ProvisionedRecord F)
  run rows [] = rows
  run rows (c ∷ cs) = run (step rows c) cs

  -- The row is this worker's, with a heartbeat no older than an instant.
  abbrev pub is_held : String → ℕ → ProvisionedRecord F → Bool
  is_held owner t row = is_owner owner row.worker_owner && leb t row.updated_at

  claim-is_held :
      (owner id : String) (t : ℕ) (rows : List (ProvisionedRecord F)) (env : Env)
      (other expect_state who : String) (stale : ℕ)
      → stale ≤ t
      → IsKeyed record_id rows
      → is_hit (is_held owner t) (find_record id rows) ≡ true
      → is_hit (is_held owner t) (find_record id (claim env other expect_state who stale rows).0)
        ≡ true
  claim-is_held owner id t rows env other expect_state who stale timely k held =
      let (won, reads) = claim_lem env other expect_state who stale rows k in
      elim (Option-cases (find_record id rows)) [
        | inl missing ↦ ground (arith, missing)
        | inr (row, found) ↦ ground (arith, found, won, reads id, eq_iff id other)
      ]

  heartbeat-is_held :
      (owner id : String) (t : ℕ) (rows : List (ProvisionedRecord F)) (env : Env)
      (other who : String)
      → t ≤ env.now
      → is_hit (is_held owner t) (find_record id rows) ≡ true
      → is_hit (is_held owner t) (find_record id (heartbeat env other who rows)) ≡ true
  unfolding heartbeat
  heartbeat-is_held owner id t rows env other who timely held =
      let write : ProvisionedRecord F → ProvisionedRecord F =
        λ row. record row { updated_at = env.now } in
      let p : ProvisionedRecord F → Bool =
        λ row. row.id == other && is_owner who row.worker_owner in
      let reads =
        row_of-update_if record_id p (λ row. is_owner who row.worker_owner) other (λ row. refl)
          write id rows (λ row. refl) in
      elim (Option-cases (find_record id rows)) [
        | inl missing ↦ ground (arith, missing)
        | inr (row, found) ↦ ground (arith, found, reads, eq_iff id other)
      ]

  step-is_held :
      (owner id : String) (t : ℕ) (rows : List (ProvisionedRecord F)) (c : WorkerCall)
      → is_timely t c ≡ true
      → IsKeyed record_id rows
      → is_hit (is_held owner t) (find_record id rows) ≡ true
      → IsKeyed record_id (step rows c)
        × (is_hit (is_held owner t) (find_record id (step rows c)) ≡ true)
  unfolding step claim heartbeat
  step-is_held owner id t rows (claims env other expect_state who) timely k held = (
    update_where-IsKeyed record_id _ _ rows (λ row. refl) k,
    claim-is_held owner id t rows env other expect_state who (stale_cutoff env) (ground arith) k
        held,
  )
  step-is_held owner id t rows (beats env other who) timely k held = (
    update_where-IsKeyed record_id _ _ rows (λ row. refl) k,
    heartbeat-is_held owner id t rows env other who (ground arith) held,
  )

  run-is_held :
      (owner id : String) (t : ℕ) (rows : List (ProvisionedRecord F)) (cs : List WorkerCall)
      → All (λ c. is_timely t c ≡ true) cs
      → IsKeyed record_id rows
      → is_hit (is_held owner t) (find_record id rows) ≡ true
      → IsKeyed record_id (run rows cs)
        × (is_hit (is_held owner t) (find_record id (run rows cs)) ≡ true)
  unfolding run
  run-is_held owner id t rows [] timely k held = (k, held)
  run-is_held owner id t rows (c ∷ cs) (now, later) k held =
      let (k', held') = step-is_held owner id t rows c now k held in
      run-is_held owner id t (step rows c) cs later k' held'

  -- In a table without two rows of an id: once a worker has claimed a row, then through any claims
  -- and heartbeats of any workers made while that claim's heartbeat is not stale, every further
  -- claim of the row made in that time fails, whoever makes it.
  pub run-claim_excluded :
      (env : Env) (id expect_state owner : String) (stale : ℕ) (rows : List (ProvisionedRecord F))
      (cs : List WorkerCall) (env' : Env) (expect_state' owner' : String)
      → IsKeyed record_id rows
      → (claim env id expect_state owner stale rows).1 ≡ true
      → All (λ c. is_timely env.now c ≡ true) cs
      → stale_cutoff env' ≤ env.now
      → (claim env' id expect_state' owner'
          (stale_cutoff env')
          (run (claim env id expect_state owner stale rows).0 cs)).1
        ≡ false
  run-claim_excluded env id expect_state owner stale rows cs env' expect_state' owner' k won timely
        early =
      let (w, reads) = claim_lem env id expect_state owner stale rows k in
      let rows1 = (claim env id expect_state owner stale rows).0 in
      let k1 : IsKeyed record_id rows1 =
        unfold claim in update_where-IsKeyed record_id _ _ rows (λ row. refl) k in
      let held : is_hit (is_held owner env.now) (find_record id rows1) ≡ true =
        elim (Option-cases (find_record id rows)) [
          | inl missing ↦ ground (arith, missing, w)
          | inr (row, found) ↦ ground (arith, found, won, reads id, eq_refl id, eq_refl owner)
        ] in
      let (k2, held2) = run-is_held owner id env.now rows1 cs timely k1 held in
      let (w2, reads2) =
        claim_lem env' id expect_state' owner' (stale_cutoff env') (run rows1 cs) k2 in
      elim (Option-cases (find_record id (run rows1 cs))) [
        | inl missing ↦ ground (arith, missing, w2)
        | inr (row, found) ↦ ground (arith, found, w2, held2)
      ]
