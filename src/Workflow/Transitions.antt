-- ===== src/Workflow/Transitions.antt =====
-- crates/workflow/src/lib.rs: `transition` and the operations that call it. `transition` reads the
-- row, tests the step and then writes by id; the two halves are kept apart, since another call
-- may come between them.
use frontkeep.Base.{
  String, Option, none, some, if◌then◌else◌, update_where, ◌>>=◌, ◌>>◌, ok_or, ensure, Result, err,
  ok, concat,
}
use frontkeep.Base.Json.{Json}
use frontkeep.Storage.Env.{Env}
use frontkeep.Workflow.Engine.{
  audit, has_id, get, WorkflowRequest, WorkflowRow, WorkflowError, not_found, invalid_transition,
  WorkflowDb,
}
use frontkeep.Workflow.State.{
  as_str, can_transition, is_state, State, requested, reviewing, flagged, approved, rejected,
  fulfilled, cancelled,
}

abbrev or_keep : Option String → Option String → Option String
or_keep none old = old
or_keep (some new) old = some new

-- The request as `transition` leaves it.
abbrev pub moved : Env → State → Option String → Option String → WorkflowRequest → WorkflowRequest
moved env to approver reason req = record req {
  state = to;
  approver = or_keep approver req.approver;
  reason = or_keep reason req.reason;
  updated_at = env.now;
}

-- `UPDATE workflow_requests SET state, approver, reason, updated_at`
unfoldable pub store_state : WorkflowRequest → WorkflowRow → WorkflowRow
store_state req row = record row {
  state = as_str req.state;
  approver = req.approver;
  reason = req.reason;
  updated_at = req.updated_at;
}

-- The first half of `transition`: the row, if the step is allowed.
unfoldable pub check_transition : String → State → WorkflowDb → Result WorkflowError WorkflowRequest
check_transition id to db = do
  req ← ok_or (get id db) (not_found id)
  ensure (can_transition req.state to) (invalid_transition (as_str req.state) (as_str to))
  ok req

-- The second half: the write and its audit record.
unfoldable pub write_transition :
    Env
    → State
    → Option String
    → Option String
    → String
    → WorkflowRequest
    → WorkflowDb
    → WorkflowDb × WorkflowRequest
write_transition env to approver reason actor req db =
    let req' = moved env to approver reason req in
    let db' : WorkflowDb = record db {
      requests = update_where (has_id req.id) (store_state req') db.requests;
    } in
    (audit env req' (concat "workflow." (as_str to)) actor db', req')

unfoldable pub transition :
    Env
    → String
    → State
    → Option String
    → Option String
    → String
    → WorkflowDb
    → Result WorkflowError (WorkflowDb × WorkflowRequest)
transition env id to approver reason actor db = do
  req ← check_transition id to db
  ok (write_transition env to approver reason actor req db)

abbrev pub Outcome : Type 0
Outcome = Result WorkflowError (WorkflowDb × WorkflowRequest)

-- A call that fails writes nothing.
abbrev pub after : WorkflowDb → Outcome → WorkflowDb
after db (ok (db', req)) = db'
after db (err e) = db

unfoldable pub approve : Env → String → String → Option String → WorkflowDb → Outcome
approve env id approver reason db = transition env id approved (some approver) reason approver db

unfoldable pub reject : Env → String → String → Option String → WorkflowDb → Outcome
reject env id approver reason db = transition env id rejected (some approver) reason approver db

abbrev pub already : State → Option WorkflowRequest → Option WorkflowRequest
already s none = none
already s (some req) = if is_state req.state s then some req else none

unfoldable pub fulfill : Env → String → String → WorkflowDb → Outcome
fulfill env id actor db = elim (already fulfilled (get id db)) [
  | some req ↦ ok (db, req)
  | none ↦ transition env id fulfilled none none actor db
]

unfoldable pub cancel : Env → String → String → WorkflowDb → Outcome
cancel env id actor db = transition env id cancelled none (some "cancelled by requester") actor db

unfoldable pub flag : Env → String → String → String → WorkflowDb → Outcome
flag env id actor summary db = transition env id flagged none (some summary) actor db

unfoldable pub escalate : Env → String → String → WorkflowDb → Outcome
escalate env id actor db =
    transition env id requested none (some "escalated to human review by submitter") actor db

unfoldable pub review : Env → String → String → WorkflowDb → Outcome
review env id actor db =
    transition env id reviewing none (some "under automated code review") actor db

unfoldable pub resolve_review : Env → String → State → String → String → WorkflowDb → Outcome
resolve_review env id to reason actor db = transition env id to none (some reason) actor db

unfoldable pub update_payload : Env → String → Json → WorkflowDb → WorkflowDb
update_payload env id payload db = record db {
  requests =
      update_where (has_id id) (λ row. record row { payload = payload; updated_at = env.now })
        db.requests;
}
