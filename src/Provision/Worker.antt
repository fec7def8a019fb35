-- ===== src/Provision/Worker.antt =====
-- crates/provision/src/lib.rs: the worker's body, `drive_core`, and the retry policy. The connector
-- is a parameter: what an apply or a destroy of a record gives.
use frontkeep.Base.{
  ℕ, ◌+◌, ◌-◌, ◌*◌, ◌%◌, ◌^◌, min, String, Bool, ◌||◌, Option, none, some, List, ◌==◌, ltb,
  if◌then◌else◌, Result, err, ok, as_i64, ℤ,
}
use frontkeep.Base.Float.{Float}
use frontkeep.Base.Json.{Json}
use frontkeep.Provision.Repo.{find_record, claim, finish, mark_failed, ProvisionedRecord}
use frontkeep.Storage.Env.{minus_seconds, shift_seconds, Env}
use frontkeep.Workflow.Engine.{WorkflowDb}
use frontkeep.Workflow.Transitions.{after, fulfill}

pub record RetryPolicy : Type 0 where
  pub max_attempts : ℕ
  pub base_secs : ℕ
  pub cap_secs : ℕ

-- `backoff_secs`: the product saturates at the largest 64-bit number, and `as i64` wraps.
unfoldable pub backoff_secs : ℕ → RetryPolicy → ℤ
backoff_secs attempts policy =
    let shift = min (attempts - 1) 16 in
    as_i64 (min (min (policy.base_secs * 2 ^ shift) 18_446_744_073_709_551_615) policy.cap_secs)

abbrev pub stale_cutoff : Env → ℕ
stale_cutoff env = minus_seconds env.now 900

pub data Action : Type 0 where
  apply destroy : Action

abbrev pub action_of : String → Option Action
action_of state =
    if state == "provisioning" || state == "failed"
    then some apply
    else if state == "destroying" || state == "destroy_failed"
    then some destroy
    else none

abbrev pub done_state : Action → String
done_state apply = "provisioned"
done_state destroy = "destroyed"

abbrev pub failed_state : Action → String
failed_state apply = "failed"
failed_state destroy = "destroy_failed"

-- The rows, the workflow engine's tables, and whether the service holds a handle on the engine.
pub record ProvisionDb (F : Float) : Type 0 where
  pub rows : List (ProvisionedRecord F)
  pub workflow : WorkflowDb
  pub wired : Bool

-- `run_apply` and `run_destroy`
abbrev pub Connector : Float → Type 0
Connector F = Action → ProvisionedRecord F → Result String Json

-- The request is fulfilled through the handle, by name `system`; its errors are ignored.
abbrev pub fulfilled_by : Env → String → Bool → WorkflowDb → WorkflowDb
fulfilled_by env request_id wired w =
    if wired then after w (fulfill env request_id "system" w) else w

abbrev pub fulfilled_in : Env → Action → Option String → Bool → WorkflowDb → WorkflowDb
fulfilled_in env apply (some request_id) wired w = fulfilled_by env request_id wired w
fulfilled_in env _ _ wired w = w

-- The deadline of the next automatic retry, if there is to be one: `attempts as u32` wraps.
abbrev pub next_retry : Env → RetryPolicy → ℕ → Option ℕ
next_retry env policy attempts =
    if ltb (attempts % 4_294_967_296) policy.max_attempts
    then some (shift_seconds env.now (backoff_secs attempts policy))
    else none

module _ {F : Float} where
  -- After the connector has run.
  unfoldable pub conclude :
      Env
      → RetryPolicy
      → Action
      → ProvisionedRecord F
      → Result String Json
      → ProvisionDb F
      → ProvisionDb F × Result String (Unit {0})
  conclude env policy action rec (ok outputs) db = (
    record db {
      rows = finish env rec.id (done_state action) outputs db.rows;
      workflow = fulfilled_in env action rec.request_id db.wired db.workflow;
    },
    ok tt,
  )
  conclude env policy action rec (err e) db =
      let attempts = rec.attempts + 1 in
      (
        record db {
          rows =
              mark_failed env rec.id (failed_state action) e attempts
                (next_retry env policy attempts) db.rows;
        },
        err e,
      )

  unfoldable pub drive_core :
      Env
      → String
      → Connector F
      → (String → RetryPolicy)
      → String
      → ProvisionDb F
      → ProvisionDb F × Result String (Unit {0})
  drive_core env instance_id connector policy_of id db = elim (find_record id db.rows) [
    | none ↦ (db, ok tt)
    | some rec ↦ elim (action_of rec.state) [
      | none ↦ (db, ok tt)
      | some action ↦
          let (rows, won) = claim env id rec.state instance_id (stale_cutoff env) db.rows in
          if won
          then conclude env (policy_of rec.rtype) action rec (connector action rec)
              (record db { rows = rows })
          else (record db { rows = rows }, ok tt)
    ]
  ]
