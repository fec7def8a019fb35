-- ===== src/Workflow/Engine.antt =====
-- crates/workflow/src/lib.rs: the request records, their table and the engine's operations.
-- Database failures are not modelled: an operation's errors are its own. The payload column holds
-- the value itself, not its text. The policy engine is an argument.
use mathlib.Core.Option
use frontkeep.Base.{
  ℕ, String, Bool, true, not, ◌&&◌, ◌||◌, Option, none, some, List, [], ◌∷◌, ◌++◌, map, ◌==◌,
  if◌then◌else◌, keep, take, unwrap_or, find?, or_else, strip_prefix, join, sort, newest_first,
}
use frontkeep.Base.Json.{json, get_str, Json, str}
use frontkeep.Policy.Engine.{allowed, requires_approval, PolicyEngine, PolicyRequest, Decision}
use frontkeep.Storage.Audit.{new_record, append, AuditRecord}
use frontkeep.Storage.Env.{plus_seconds, Env}
use frontkeep.Workflow.State.{as_str, parse, State, requested, approved, rejected}

pub record WorkflowRequest : Type 0 where
  pub id : String
  pub kind : String
  pub requester : String
  pub subject : String
  pub state : State
  pub approver : Option String
  pub payload : Json
  pub reason : Option String
  pub sla_due_at : Option ℕ
  pub created_at : ℕ
  pub updated_at : ℕ

-- A row of `workflow_requests`: the state is stored as text.
pub record WorkflowRow : Type 0 where
  pub id : String
  pub kind : String
  pub requester : String
  pub subject : String
  pub state : String
  pub approver : Option String
  pub payload : Json
  pub reason : Option String
  pub sla_due_at : Option ℕ
  pub created_at : ℕ
  pub updated_at : ℕ

-- `WorkflowRequest::project_id`
abbrev pub project_id : WorkflowRequest → Option String
project_id r = or_else (get_str r.payload "project_id") (strip_prefix r.subject "project:")

pub record NewRequest : Type 0 where
  pub kind : String
  pub requester : String
  pub subject : String
  pub payload : Json
  pub sla_seconds : Option ℕ

pub record RequestFilter : Type 0 where
  pub state : Option State
  pub requester : Option String
  pub subject : Option String
  pub limit : Option ℕ

pub data WorkflowError : Type 0 where
  not_found : String → WorkflowError
  invalid_transition : (from to : String) → WorkflowError

-- The tables that the engine writes.
pub record WorkflowDb : Type 0 where
  pub requests : List WorkflowRow
  pub audit_log : List AuditRecord

unfoldable pub row_to_request : WorkflowRow → WorkflowRequest
row_to_request row = record {
  id = row.id;
  kind = row.kind;
  requester = row.requester;
  subject = row.subject;
  state = parse row.state;
  approver = row.approver;
  payload = row.payload;
  reason = row.reason;
  sla_due_at = row.sla_due_at;
  created_at = row.created_at;
  updated_at = row.updated_at;
}

-- The values that `submit` binds to its INSERT.
unfoldable pub request_to_row : WorkflowRequest → WorkflowRow
request_to_row req = record {
  id = req.id;
  kind = req.kind;
  requester = req.requester;
  subject = req.subject;
  state = as_str req.state;
  approver = req.approver;
  payload = req.payload;
  reason = req.reason;
  sla_due_at = req.sla_due_at;
  created_at = req.created_at;
  updated_at = req.updated_at;
}

unfoldable pub action_for : String → String
action_for kind =
    if kind == "decommission"
    then "decommission"
    else if kind == "access" || kind == "invoke"
    then "invoke"
    else if kind == "promotion"
    then "promote"
    else if kind == "review-extension"
    then "extend"
    else if kind == "budget"
    then "set_budget"
    else "deploy"

-- `audit`
unfoldable pub audit : Env → WorkflowRequest → String → String → WorkflowDb → WorkflowDb
audit env req action actor db = record db {
  audit_log =
      append
        (record (new_record env actor action) {
          entity_ref = some req.subject;
          outcome = as_str req.state;
          reason = some (unwrap_or req.reason "");
          data_json = json (("request_id", str req.id) ∷ ("kind", str req.kind) ∷ []);
        })
        db.audit_log;
}

-- The state that policy gives a new request, its approver and the reason.
unfoldable pub initial : Decision → State × Option String × Option String
initial d =
    if not (allowed d)
    then (rejected, none, some (join d.reasons "; "))
    else elim (requires_approval d) [
      | some approver ↦ (requested, some approver, none)
      | none ↦ (approved, none, some "auto-approved: no approval required")
    ]

-- What `submit` asks the policy engine.
abbrev pub submit_query : NewRequest → PolicyRequest
submit_query new = record {
  principal = new.requester;
  action = action_for new.kind;
  resource = new.subject;
  context = new.payload;
}

abbrev pub new_request : Env → NewRequest → State × Option String × Option String → WorkflowRequest
new_request env new (state, approver, reason) = record {
  id = env.uid;
  kind = new.kind;
  requester = new.requester;
  subject = new.subject;
  state = state;
  approver = approver;
  payload = new.payload;
  reason = reason;
  sla_due_at = Option.map (plus_seconds env.now) new.sla_seconds;
  created_at = env.now;
  updated_at = env.now;
}

abbrev insert_request : WorkflowRequest → WorkflowDb → WorkflowDb
insert_request req db = record db { requests = db.requests ++ request_to_row req ∷ [] }

unfoldable pub submit : PolicyEngine → Env → NewRequest → WorkflowDb → WorkflowDb × WorkflowRequest
submit policy env new db =
    let req = new_request env new (initial (policy (submit_query new))) in
    (audit env req "workflow.submitted" req.requester (insert_request req db), req)

abbrev pub has_id : String → WorkflowRow → Bool
has_id id row = row.id == id

unfoldable pub get : String → WorkflowDb → Option WorkflowRequest
get id db = Option.map row_to_request (find? (has_id id) db.requests)

abbrev matches : Option String → String → Bool
matches none s = true
matches (some t) s = s == t

-- The conditions that `list` adds to its statement.
unfoldable pub selects : RequestFilter → WorkflowRow → Bool
selects filter row =
    matches (Option.map as_str filter.state) row.state
    && matches filter.requester row.requester
    && matches filter.subject row.subject

unfoldable pub list : RequestFilter → WorkflowDb → List WorkflowRequest
list filter db = map row_to_request (
    take (unwrap_or filter.limit 500)
      (sort (newest_first (λ row. row.created_at)) (keep (selects filter) db.requests)))
