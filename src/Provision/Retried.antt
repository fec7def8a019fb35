-- ===== src/Provision/Retried.antt =====
-- crates/provision/src/lib.rs: how often a resource whose connector fails is tried again.
mod Tests
use frontkeep.Base.{
  ℕ, zero, suc, ◌+◌, ◌*◌, ◌%◌, ◌^◌, ◌≤◌, ◌<◌, min, String, ◌≡◌, refl, ap, subst, ◌∙◌, inl, inr,
  Bool, ◌&&◌, ◌||◌, none, some, List, [], ◌∷◌, eq_refl, arith, ltb, leb, Bool-cases, length, any,
  keep, take, any-keep, unwrap_or, Result, err, ok, is_hit, by_key, IsKeyed, update_where-IsKeyed,
  any-keyed, pos, sort, length-sort, any-sort, oldest_first,
}
use frontkeep.Base.Float.{Float}
use frontkeep.Base.Json.{Json}
use frontkeep.Catalog.Reconcile.{start}
use frontkeep.Provision.Repo.{
  record_id, find_record, claim, finish, mark_failed, is_retryable, list_retryable,
  ProvisionedRecord,
}
use frontkeep.Provision.Retries.{driven, drive_core_lem, backoff_secs-pos}
use frontkeep.Provision.Worker.{
  backoff_secs, stale_cutoff, action_of, failed_state, Connector, conclude, drive_core, RetryPolicy,
  Action, apply, destroy, ProvisionDb,
}
use frontkeep.Storage.Env.{Env}

any-take {ℓ} :
    {A : Type ℓ} (p : A → Bool) (n : ℕ) (xs : List A) → length xs ≤ n → any p (take n xs) ≡ any p xs
any-take p zero [] h = refl
any-take p (suc n) [] h = refl
any-take p zero (x ∷ xs) h = ground (arith, h)
any-take p (suc n) (x ∷ xs) h = ap (λ b. p x || b) (any-take p n xs (omega (arith, h)))

any-swap {ℓ} :
    {A : Type ℓ} (p q : A → Bool) (xs : List A)
    → any (λ x. p x && q x) xs ≡ any (λ x. q x && p x) xs
any-swap p q [] = refl
any-swap p q (x ∷ xs) = ground (arith, any-swap p q xs)

length-keep {ℓ} : {A : Type ℓ} (p : A → Bool) (xs : List A) → length (keep p xs) ≤ length xs
length-keep p [] = omega arith
length-keep p (x ∷ xs) = ground (arith, length-keep p xs)

module _ {F : Float} where
  -- Whether a sweep takes up a row.
  abbrev pub is_swept : (id : String) (now stale limit : ℕ) → List (ProvisionedRecord F) → Bool
  is_swept id now stale limit rows = any (by_key record_id id) (list_retryable now stale limit rows)

  is_swept_lem :
      (id : String) (now stale limit : ℕ) (rows : List (ProvisionedRecord F))
      → IsKeyed record_id rows
      → length rows ≤ limit
      → is_swept id now stale limit rows ≡ is_hit (is_retryable now stale) (find_record id rows)
  unfolding list_retryable
  is_swept_lem id now stale limit rows k fits =
      let before = oldest_first {A = ProvisionedRecord F} (λ row. unwrap_or row.next_retry_at 0) in
      let due = keep (is_retryable now stale) rows in
      any-take (by_key record_id id) limit (sort before due)
        (omega (arith, length-sort before due, length-keep (is_retryable now stale) rows, fits))
      ∙ any-sort before (by_key record_id id) due
      ∙ any-keep (by_key record_id id) (is_retryable now stale) rows
      ∙ any-swap (is_retryable now stale) (by_key record_id id) rows
      ∙ any-keyed record_id (is_retryable now stale) id rows k

  conclude-IsKeyed :
      (env : Env) (policy : RetryPolicy) (action : Action) (rec : ProvisionedRecord F)
      (answer : Result String Json) (db : ProvisionDb F)
      → IsKeyed record_id db.rows
      → IsKeyed record_id (conclude env policy action rec answer db).0.rows
  unfolding conclude finish mark_failed
  conclude-IsKeyed env policy action rec (ok outputs) db k =
      update_where-IsKeyed record_id _ _ db.rows (λ row. refl) k
  conclude-IsKeyed env policy action rec (err e) db k =
      update_where-IsKeyed record_id _ _ db.rows (λ row. refl) k

  drive_core-IsKeyed :
      (env : Env) (instance_id : String) (connector : Connector F)
      (policy_of : String → RetryPolicy) (id : String) (db : ProvisionDb F)
      (rec : ProvisionedRecord F) (action : Action)
      → find_record id db.rows ≡ some rec
      → action_of rec.state ≡ some action
      → IsKeyed record_id db.rows
      → IsKeyed record_id (drive_core env instance_id connector policy_of id db).0.rows
  unfolding drive_core claim
  drive_core-IsKeyed env instance_id connector policy_of id db rec action found work k =
      let (rows, won) = claim env id rec.state instance_id (stale_cutoff env) db.rows in
      let k1 : IsKeyed record_id rows =
        update_where-IsKeyed record_id _ _ db.rows (λ row. refl) k in
      elim (Bool-cases won) [
        | inl yes_won ↦
            rw (found, work, yes_won, drive_core)
              (conclude-IsKeyed env (policy_of rec.rtype) action rec (connector action rec)
                (record db { rows = rows }) k1)
        | inr lost ↦ rw (found, work, lost, drive_core) k1
      ]

below_modulus : (n : ℕ) → n + 1 < 4_294_967_296 → (n + 1) % 4_294_967_296 ≡ n + 1
below_modulus n few = omega (arith, few)

deadline :
    (policy : RetryPolicy) (attempts times : ℕ)
    → attempts ≡ times
    → policy.cap_secs < 9_223_372_036_854_775_808
    → backoff_secs (attempts + 1) policy
      ≡ pos (min (policy.base_secs * 2 ^ min times 16) policy.cap_secs)
deadline policy attempts times tried small =
    backoff_secs-pos (attempts + 1) policy small
    ∙ ap (λ n. pos (min (policy.base_secs * 2 ^ min n 16) policy.cap_secs)) (omega (arith, tried))

failed_again : (action : Action) → action_of (failed_state action) ≡ some action
failed_again apply = refl
failed_again destroy = refl

-- Runs of the worker on one record, each of which fails with an error.
module _ {F : Float} (instance_id : String) (policy_of : String → RetryPolicy) (id : String) where
  abbrev pub fail_once : Env → String → ProvisionDb F → ProvisionDb F
  fail_once env e db = (drive_core env instance_id (λ action rec. err e) policy_of id db).0

  abbrev pub fail_runs : List (Env × String) → ProvisionDb F → ProvisionDb F
  fail_runs [] db = db
  fail_runs ((env, e) ∷ runs) db = fail_runs runs (fail_once env e db)

  -- The record has failed that often, of one service, and nobody drives it.
  record IsFailing (rtype : String) (action : Action) (times : ℕ) (db : ProvisionDb F)
      : Type 0 where
    pub row : ProvisionedRecord F
    pub keyed : IsKeyed record_id db.rows
    pub found : find_record id db.rows ≡ some row
    pub works : action_of row.state ≡ some action
    pub free : row.worker_owner ≡ none
    pub times_tried : row.attempts ≡ times
    pub typed : row.rtype ≡ rtype

  fail_once-find :
      (rtype : String) (action : Action) (times : ℕ) (env : Env) (e : String) (db : ProvisionDb F)
      (f : IsFailing rtype action times db)
      → find_record id (fail_once env e db).rows
        ≡ some (driven env (policy_of rtype) action f.row (err e))
  fail_once-find rtype action times env e db f =
      drive_core_lem env instance_id (λ action rec. err e) policy_of id db f.row action id f.keyed
        f.found f.works
      ∙ ground (
        arith,
        eq_refl id,
        f.free,
        ap (λ t. driven env (policy_of t) action f.row (err e)) f.typed,
      )

  fail_once-IsFailing :
      (rtype : String) (action : Action) (times : ℕ) (env : Env) (e : String) (db : ProvisionDb F)
      → IsFailing rtype action times db
      → IsFailing rtype action (times + 1) (fail_once env e db)
  unfolding driven
  fail_once-IsFailing rtype action times env e db f = record {
    row = driven env (policy_of rtype) action f.row (err e);
    keyed =
        drive_core-IsKeyed env instance_id (λ action rec. err e) policy_of id db f.row action
          f.found f.works f.keyed;
    found = fail_once-find rtype action times env e db f;
    works = failed_again action;
    free = refl;
    times_tried = ap (λ n. n + 1) f.times_tried;
    typed = f.typed;
  }

  fail_runs-IsFailing :
      (rtype : String) (action : Action) (times : ℕ) (runs : List (Env × String))
      (db : ProvisionDb F)
      → IsFailing rtype action times db
      → IsFailing rtype action (times + length runs) (fail_runs runs db)
  fail_runs-IsFailing rtype action times [] db f =
      subst (λ n. IsFailing rtype action n db) (omega arith) f
  fail_runs-IsFailing rtype action times ((env, e) ∷ runs) db f =
      subst (λ n. IsFailing rtype action n (fail_runs runs (fail_once env e db))) (omega arith)
        (fail_runs-IsFailing rtype action (times + 1) runs (fail_once env e db)
          (fail_once-IsFailing rtype action times env e db f))

  failed-is_retryable :
      (policy : RetryPolicy) (action : Action) (rec : ProvisionedRecord F) (env : Env) (e : String)
      (times now stale : ℕ)
      → rec.attempts ≡ times
      → times + 1 < 4_294_967_296
      → policy.cap_secs < 9_223_372_036_854_775_808
      → is_retryable now stale (driven env policy action rec (err e)) ≡ (
          ltb (times + 1) policy.max_attempts
          && leb (env.now + min (policy.base_secs * 2 ^ min times 16) policy.cap_secs * 1000) now)
  unfolding driven
  failed-is_retryable policy apply rec env e times now stale tried few small =
      ground (arith, tried, below_modulus times few, deadline policy rec.attempts times tried small)
  failed-is_retryable policy destroy rec env e times now stale tried few small =
      ground (arith, tried, below_modulus times few, deadline policy rec.attempts times tried small)

  -- A record that a worker should drive, that nobody drives and that has not failed yet, in a table
  -- without two rows of an id, and a service whose cap is below 2 ^ 63 seconds: after fewer than 2 ^ 32
  -- runs that all failed, a sweep that has room for the whole table takes the record up exactly when
  -- they were fewer than `max_attempts` and the deadline is reached. The deadline is the base after
  -- the last run, where the base is doubled for each run before that one, up to sixteen times; or the
  -- cap after it, if that is less.
  pub retried_lem :
      (rec : ProvisionedRecord F) (action : Action) (runs : List (Env × String)) (env : Env)
      (e : String) (db : ProvisionDb F) (now stale limit : ℕ)
      → IsKeyed record_id db.rows
      → find_record id db.rows ≡ some rec
      → action_of rec.state ≡ some action
      → rec.worker_owner ≡ none
      → rec.attempts ≡ 0
      → length runs + 1 < 4_294_967_296
      → (policy_of rec.rtype).cap_secs < 9_223_372_036_854_775_808
      → length (fail_once env e (fail_runs runs db)).rows ≤ limit
      → is_swept id now stale limit (fail_once env e (fail_runs runs db)).rows ≡ (
          ltb (length runs + 1) (policy_of rec.rtype).max_attempts
          && leb
              (env.now
                + min
                    ((policy_of rec.rtype).base_secs * 2 ^ min (length runs) 16)
                    (policy_of rec.rtype).cap_secs
                  * 1000)
              now)
  retried_lem rec action runs env e db now stale limit k found works free fresh few small fits =
      let start : IsFailing rec.rtype action 0 db = record {
        row = rec;
        keyed = k;
        found = found;
        works = works;
        free = free;
        times_tried = fresh;
        typed = refl;
      } in
      let f = fail_runs-IsFailing rec.rtype action 0 runs db start in
      let last =
        fail_once-IsFailing rec.rtype action (0 + length runs) env e (fail_runs runs db) f in
      is_swept_lem id now stale limit (fail_once env e (fail_runs runs db)).rows last.keyed fits
      ∙ ap (is_hit (is_retryable now stale))
          (fail_once-find rec.rtype action (0 + length runs) env e (fail_runs runs db) f)
      ∙ failed-is_retryable (policy_of rec.rtype) action f.row env e (length runs) now stale
          (f.times_tried ∙ omega arith) few small
