-- ===== src/Provision/Repo.antt =====
-- crates/provision/src/repo.rs: the statements on `provisioned_resources`. The JSON columns hold
-- their values.
use frontkeep.Base.{
  ℕ, String, Bool, false, not, ◌&&◌, ◌||◌, Option, none, some, List, [], ◌∷◌, ◌++◌, ◌==◌, ltb, leb,
  eqb, if◌then◌else◌, keep, take, unwrap_or, is_some, update_where, rows_affected, by_key, row_of,
  sort, oldest_first,
}
use frontkeep.Base.Float.{Float}
use frontkeep.Base.Json.{Json}
use frontkeep.Storage.Env.{Env}

module _ (F : Float) where
  -- A row: the record, and the worker that has claimed it.
  pub record ProvisionedRecord : Type 0 where
    pub id : String
    pub project_id : String
    pub rtype : String
    pub name : String
    pub spec : Json
    pub outputs : Json
    pub tags : List (String × String)
    pub est_monthly_usd : F.F64
    pub state : String
    pub backend : String
    pub dry_run : Bool
    pub request_id : Option String
    pub created_at : ℕ
    pub updated_at : ℕ
    pub last_error : String
    pub attempts : ℕ
    pub next_retry_at : Option ℕ
    pub worker_owner : Option String

abbrev pub is_request : String → Option String → Bool
is_request id none = false
is_request id (some r) = r == id

abbrev pub is_owner : String → Option String → Bool
is_owner owner none = false
is_owner owner (some o) = o == owner

abbrev pub work_state : String → String
work_state state =
    if state == "failed"
    then "provisioning"
    else if state == "destroy_failed"
    then "destroying"
    else state

abbrev pub is_due : ℕ → Option ℕ → Bool
is_due now none = false
is_due now (some t) = leb t now

module _ {F : Float} where
  abbrev pub record_id : ProvisionedRecord F → String
  record_id row = row.id

  -- `get`
  abbrev pub find_record : String → List (ProvisionedRecord F) → Option (ProvisionedRecord F)
  find_record id rows = row_of record_id id rows

  -- `record`
  unfoldable pub insert_record :
      ProvisionedRecord F → List (ProvisionedRecord F) → List (ProvisionedRecord F)
  insert_record rec rows = rows ++ record rec { worker_owner = none } ∷ []

  unfoldable pub mark_state :
      Env → String → String → List (ProvisionedRecord F) → List (ProvisionedRecord F)
  mark_state env id state rows =
      update_where (by_key record_id id) (λ row. record row { state = state; updated_at = env.now })
        rows

  -- `worker_owner IS NULL OR updated_at < ?`
  abbrev pub is_abandoned : ℕ → ProvisionedRecord F → Bool
  is_abandoned stale row = not (is_some row.worker_owner) || ltb row.updated_at stale

  abbrev pub is_work : ProvisionedRecord F → Bool
  is_work row = row.state == "provisioning" || row.state == "destroying"

  unfoldable pub list_reclaimable : ℕ → ℕ → List (ProvisionedRecord F) → List (ProvisionedRecord F)
  list_reclaimable stale limit rows = take limit (
      sort (oldest_first (λ row. row.created_at))
        (keep (λ row. is_work row && is_abandoned stale row) rows))

  abbrev pub is_claimable : String → String → ℕ → ProvisionedRecord F → Bool
  is_claimable id expect_state stale row =
      row.id == id && row.state == expect_state && is_abandoned stale row

  unfoldable pub claim :
      Env
      → (id expect_state owner : String) → ℕ
      → List (ProvisionedRecord F)
      → List (ProvisionedRecord F) × Bool
  claim env id expect_state owner stale rows = (
    update_where (is_claimable id expect_state stale)
        (λ row. record row { worker_owner = some owner; updated_at = env.now }) rows,
    eqb (rows_affected (is_claimable id expect_state stale) rows) 1,
  )

  unfoldable pub heartbeat :
      Env → (id owner : String) → List (ProvisionedRecord F) → List (ProvisionedRecord F)
  heartbeat env id owner rows =
      update_where (λ row. row.id == id && is_owner owner row.worker_owner)
        (λ row. record row { updated_at = env.now }) rows

  unfoldable pub finish :
      Env → (id state : String) → Json → List (ProvisionedRecord F) → List (ProvisionedRecord F)
  finish env id state outputs rows =
      update_where (by_key record_id id)
        (λ row. record row {
          state = state;
          outputs = outputs;
          last_error = "";
          worker_owner = none;
          attempts = 0;
          next_retry_at = none;
          updated_at = env.now;
        })
        rows

  unfoldable pub mark_failed :
      Env
      → (id state error : String) → ℕ
      → Option ℕ
      → List (ProvisionedRecord F)
      → List (ProvisionedRecord F)
  mark_failed env id state error attempts next_retry_at rows =
      update_where (by_key record_id id)
        (λ row. record row {
          state = state;
          last_error = error;
          attempts = attempts;
          next_retry_at = next_retry_at;
          worker_owner = none;
          updated_at = env.now;
        })
        rows

  unfoldable pub update_for_reapply :
      Env → String → Json → F.F64 → String → List (ProvisionedRecord F) → List (ProvisionedRecord F)
  update_for_reapply env id spec est_monthly_usd request_id rows =
      update_where (by_key record_id id)
        (λ row. record row {
          spec = spec;
          est_monthly_usd = est_monthly_usd;
          request_id = some request_id;
          state = "provisioning";
          last_error = "";
          attempts = 0;
          next_retry_at = none;
          worker_owner = none;
          updated_at = env.now;
        })
        rows

  abbrev pub is_reclaimable : String → ℕ → ProvisionedRecord F → Bool
  is_reclaimable id stale row = row.id == id && is_work row && is_abandoned stale row

  unfoldable pub reclaim_stale :
      Env → String → ℕ → List (ProvisionedRecord F) → List (ProvisionedRecord F) × Bool
  reclaim_stale env id stale rows = (
    update_where (is_reclaimable id stale)
        (λ row. record row {
          worker_owner = none;
          attempts = 0;
          next_retry_at = none;
          last_error = "";
          updated_at = env.now;
        })
        rows,
    eqb (rows_affected (is_reclaimable id stale) rows) 1,
  )

  unfoldable pub reset_for_retry :
      Env → String → List (ProvisionedRecord F) → List (ProvisionedRecord F)
  reset_for_retry env id rows =
      update_where (by_key record_id id)
        (λ row. record row {
          state = work_state row.state;
          attempts = 0;
          next_retry_at = none;
          updated_at = env.now;
        })
        rows

  abbrev pub is_retryable : ℕ → ℕ → ProvisionedRecord F → Bool
  is_retryable now stale row =
      (row.state == "failed" || row.state == "destroy_failed")
      && is_due now row.next_retry_at
      && is_abandoned stale row

  unfoldable pub list_retryable :
      ℕ → ℕ → ℕ → List (ProvisionedRecord F) → List (ProvisionedRecord F)
  list_retryable now stale limit rows = take limit (
      sort (oldest_first (λ row. unwrap_or row.next_retry_at 0))
        (keep (is_retryable now stale) rows))
