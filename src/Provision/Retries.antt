-- ===== src/Provision/Retries.antt =====
-- crates/provision/src/lib.rs: what a run of the worker leaves, and the backoff.
use frontkeep.Base.{
  ℕ, suc, ◌+◌, ◌-◌, ◌*◌, ◌^◌, ◌≤◌, ◌<◌, min, String, ◌≡◌, refl, ap, ◌∙◌, ◌⊎◌, inl, inr, true, false,
  ◌&&◌, none, some, ◌==◌, eq_iff, eq_refl, arith, if◌then◌else◌, Bool-cases, Result, err, ok,
  IsKeyed, row_of-update, row_of-key, pos,
}
use frontkeep.Base.Float.{Float}
use frontkeep.Base.Json.{Json}
use frontkeep.Provision.Claims.{claim_lem}
use frontkeep.Provision.Repo.{
  record_id, find_record, is_abandoned, claim, finish, mark_failed, ProvisionedRecord,
}
use frontkeep.Provision.Worker.{
  backoff_secs, stale_cutoff, action_of, done_state, failed_state, Connector, next_retry, conclude,
  drive_core, RetryPolicy, Action, ProvisionDb,
}
use frontkeep.Storage.Env.{Env}

module _ {F : Float} where
  -- A record after its connector has run: live or destroyed with the new outputs and no trace of
  -- earlier failures, or failed with the error, one attempt more and the next deadline.
  unfoldable pub driven :
      Env → RetryPolicy → Action → ProvisionedRecord F → Result String Json → ProvisionedRecord F
  driven env policy action rec (ok outputs) = record rec {
    state = done_state action;
    outputs = outputs;
    last_error = "";
    worker_owner = none;
    attempts = 0;
    next_retry_at = none;
    updated_at = env.now;
  }
  driven env policy action rec (err e) = record rec {
    state = failed_state action;
    last_error = e;
    worker_owner = none;
    attempts = rec.attempts + 1;
    next_retry_at = next_retry env policy (rec.attempts + 1);
    updated_at = env.now;
  }

  conclude-find :
      (env : Env) (policy : RetryPolicy) (action : Action) (rec old : ProvisionedRecord F)
      (answer : Result String Json) (db : ProvisionDb F) (other : String)
      → find_record rec.id db.rows ≡ some old
      → old ≡ record rec { worker_owner = old.worker_owner; updated_at = old.updated_at }
      → find_record other (conclude env policy action rec answer db).0.rows ≡ (
          if other == rec.id
          then some (driven env policy action rec answer)
          else find_record other db.rows)
  unfolding conclude finish mark_failed driven
  conclude-find env policy action rec old (ok outputs) db other found same =
      let write : ProvisionedRecord F → ProvisionedRecord F = λ row. record row {
        state = done_state action;
        outputs = outputs;
        last_error = "";
        worker_owner = none;
        attempts = 0;
        next_retry_at = none;
        updated_at = env.now;
      } in
      ground (arith, row_of-update record_id write rec.id other db.rows (λ row. refl), found, same)
  conclude-find env policy action rec old (err e) db other found same =
      let write : ProvisionedRecord F → ProvisionedRecord F = λ row. record row {
        state = failed_state action;
        last_error = e;
        attempts = rec.attempts + 1;
        next_retry_at = next_retry env policy (rec.attempts + 1);
        worker_owner = none;
        updated_at = env.now;
      } in
      ground (arith, row_of-update record_id write rec.id other db.rows (λ row. refl), found, same)

  -- A run of the worker on a record that wants work, in a table without two rows of an id: if
  -- nobody drives the record, the worker claims it, runs the connector and leaves the record as
  -- that says; else it leaves every record alone. No other record changes in either case.
  pub drive_core_lem :
      (env : Env) (instance_id : String) (connector : Connector F)
      (policy_of : String → RetryPolicy) (id : String) (db : ProvisionDb F)
      (rec : ProvisionedRecord F) (action : Action) (other : String)
      → IsKeyed record_id db.rows
      → find_record id db.rows ≡ some rec
      → action_of rec.state ≡ some action
      → find_record other (drive_core env instance_id connector policy_of id db).0.rows ≡ (
          if other == id && is_abandoned (stale_cutoff env) rec
          then some (driven env (policy_of rec.rtype) action rec (connector action rec))
          else find_record other db.rows)
  unfolding drive_core
  drive_core_lem env instance_id connector policy_of id db rec action other k found work =
      let same = row_of-key record_id id db.rows rec found in
      let (won, reads) = claim_lem env id rec.state instance_id (stale_cutoff env) db.rows k in
      let (rows, b) = claim env id rec.state instance_id (stale_cutoff env) db.rows in
      let old : ProvisionedRecord F = record rec {
        worker_owner = some instance_id;
        updated_at = env.now;
      } in
      elim (Bool-cases (is_abandoned (stale_cutoff env) rec)) [
        | inl free ↦
            let win : b ≡ true = ground (arith, won, found, free, eq_refl rec.state) in
            let mine : find_record rec.id rows ≡ some old =
              ground (arith, reads rec.id, win, found, same, eq_refl id) in
            let rest =
              conclude-find env (policy_of rec.rtype) action rec old (connector action rec)
                (record db { rows = rows }) other mine refl in
            rw (found, work, win, drive_core)
              (ground (
                arith,
                rest,
                reads other,
                win,
                found,
                free,
                same,
                eq_iff other rec.id,
                eq_iff other id,
              ))
        | inr busy ↦
            let lose : b ≡ false = ground (arith, won, found, busy, eq_refl rec.state) in
            rw (found, work, lose, drive_core) (ground (arith, reads other, lose, busy))
      ]

doubles : (b n : ℕ) → b * 2 ^ n ≤ b * 2 ^ suc n
doubles b n = grind arith

-- One attempt more shifts by the same amount or by one more.
Shift-cases :
    (attempts : ℕ)
    → (min (attempts + 1 - 1) 16 ≡ min (attempts - 1) 16)
      ⊎ (min (attempts + 1 - 1) 16 ≡ suc (min (attempts - 1) 16))
Shift-cases attempts = ground arith

-- With a cap below 2 ^ 63, the backoff is the base, doubled up to sixteen times, up to the cap.
pub backoff_secs-pos :
    (attempts : ℕ) (policy : RetryPolicy)
    → policy.cap_secs < 9_223_372_036_854_775_808
    → backoff_secs attempts policy
      ≡ pos (min (policy.base_secs * 2 ^ min (attempts - 1) 16) policy.cap_secs)
unfolding backoff_secs
backoff_secs-pos attempts policy small = ground (arith, small)

-- With a cap below 2 ^ 63, the backoff is not negative, never exceeds the cap, never falls from one
-- attempt to the next, and is the base or the cap, whichever is less, at the first.
pub backoff_secs_lem :
    (attempts : ℕ) (policy : RetryPolicy)
    → policy.cap_secs < 9_223_372_036_854_775_808
    → (secs : ℕ) × (later : ℕ) × (backoff_secs attempts policy ≡ pos secs)
      × (backoff_secs (attempts + 1) policy ≡ pos later)
      × (secs ≤ policy.cap_secs)
      × (secs ≤ later)
      × (backoff_secs 1 policy ≡ pos (min policy.base_secs policy.cap_secs))
backoff_secs_lem attempts policy small =
    let shift = min (attempts - 1) 16 in
    let next = min (attempts + 1 - 1) 16 in
    let grows : policy.base_secs * 2 ^ shift ≤ policy.base_secs * 2 ^ next =
      elim (Shift-cases attempts) [
        | inl same ↦ rw same (omega arith)
        | inr more ↦ rw more (doubles policy.base_secs shift)
      ] in
    (
      min (policy.base_secs * 2 ^ shift) policy.cap_secs,
      min (policy.base_secs * 2 ^ next) policy.cap_secs,
      backoff_secs-pos attempts policy small,
      backoff_secs-pos (attempts + 1) policy small,
      omega arith,
      omega (arith, grows),
      backoff_secs-pos 1 policy small ∙ ap (λ n. pos (min n policy.cap_secs)) (omega arith),
    )
