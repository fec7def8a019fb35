-- ===== src/Workflow/Lookup.antt =====
-- crates/workflow/src/lib.rs: what a read finds after each write.
use mathlib.Core.Option
use frontkeep.Base.{
  String, ◌≡◌, refl, inl, inr, Option, none, some, [], ◌∷◌, ◌==◌, eq_iff, arith, if◌then◌else◌,
  Bool-cases, Option-cases, find?-append, err, ok, row_of, row_of-update, row_of-insert, row_of-key,
}
use frontkeep.Base.Json.{Json}
use frontkeep.Policy.Engine.{PolicyEngine}
use frontkeep.Storage.Env.{Env}
use frontkeep.Workflow.Engine.{
  row_to_request, request_to_row, audit, initial, submit_query, new_request, submit, has_id, get,
  WorkflowRequest, WorkflowRow, NewRequest, invalid_transition, WorkflowDb,
}
use frontkeep.Workflow.State.{as_str, can_transition, parse-as_str, State}
use frontkeep.Workflow.Transitions.{
  moved, store_state, check_transition, write_transition, transition, update_payload,
}

abbrev pub row_id : WorkflowRow → String
row_id row = row.id

abbrev pub state_of : String → WorkflowDb → Option State
state_of id db = Option.map (λ req. req.state) (get id db)

-- The request read for an id carries that id.
pub get-id :
    (id : String) (db : WorkflowDb) {req : WorkflowRequest} → get id db ≡ some req → req.id ≡ id
unfolding get row_to_request
get-id id db {req} h = elim (Option-cases (row_of row_id id db.requests)) [
  | inl missing ↦ ground (arith, missing)
  | inr (row, found) ↦ ground (arith, found, row_of-key row_id id db.requests row found)
]

row_to_request-store_state :
    (env : Env) (to : State) (a r : Option String) (row : WorkflowRow) {req : WorkflowRequest}
    → row_to_request row ≡ req
    → row_to_request (store_state (moved env to a r req) row) ≡ moved env to a r req
unfolding row_to_request store_state
row_to_request-store_state env to a r row {req} same = ground (arith, parse-as_str to)

store_state-id :
    (req : WorkflowRequest) (row : WorkflowRow) → row_id (store_state req row) ≡ row_id row
unfolding store_state
store_state-id req row = refl

-- A row that an id finds, as the table has it.
pub get-eq-some :
    (id : String) (db : WorkflowDb) {req : WorkflowRequest}
    → get id db ≡ some req
    → (row : WorkflowRow) × (row_of row_id id db.requests ≡ some row) × (row_to_request row ≡ req)
unfolding get
get-eq-some id db {req} h = elim (Option-cases (row_of row_id id db.requests)) [
  | inl missing ↦ ground (arith, missing)
  | inr (row, found) ↦ (row, found, ground (arith, found))
]

-- The write of a transition replaces the request of its id and no other.
pub get-write_transition :
    (env : Env) (to : State) (a r : Option String) (actor id other : String) (req : WorkflowRequest)
    (db : WorkflowDb)
    → get id db ≡ some req
    → get other (write_transition env to a r actor req db).0
      ≡ (if other == id then some (moved env to a r req) else get other db)
unfolding write_transition get audit
get-write_transition env to a r actor id other req db h =
    let (row, found, same) = get-eq-some id db h in
    let store = store_state (moved env to a r req) in
    ground (
      arith,
      row_of-update row_id store req.id other db.requests (store_state-id (moved env to a r req)),
      get-id id db h,
      found,
      row_to_request-store_state env to a r row same,
    )

row_free : (id : String) (db : WorkflowDb) → get id db ≡ none → row_of row_id id db.requests ≡ none
unfolding get
row_free id db h = elim (Option-cases (row_of row_id id db.requests)) [
  | inl missing ↦ missing
  | inr (row, found) ↦ ground (arith, found)
]

-- A submitted request is found under its fresh id, and every other id as before.
pub get-submit :
    (policy : PolicyEngine) (env : Env) (new : NewRequest) (other : String) (db : WorkflowDb)
    → get env.uid db ≡ none
    → get other (submit policy env new db).0
      ≡ (if other == env.uid then some (submit policy env new db).1 else get other db)
unfolding submit get audit request_to_row row_to_request
get-submit policy env new other db fresh =
    let req = new_request env new (initial (policy (submit_query new))) in
    let free : row_of row_id env.uid db.requests ≡ none = row_free env.uid db fresh in
    ground (
      arith,
      row_of-insert row_id (request_to_row req) other db.requests free,
      parse-as_str req.state,
    )

pub get-submit_taken :
    (policy : PolicyEngine) (env : Env) (new : NewRequest) (other : String) (db : WorkflowDb)
    {old : WorkflowRequest}
    → get env.uid db ≡ some old
    → get other (submit policy env new db).0 ≡ get other db
unfolding submit get audit request_to_row
get-submit_taken policy env new other db taken =
    let req = new_request env new (initial (policy (submit_query new))) in
    let (row, found, same) = get-eq-some env.uid db taken in
    ground (
      arith,
      found,
      eq_iff env.uid other,
      find?-append (has_id other) db.requests (request_to_row req ∷ []),
    )

pub get-update_payload :
    (env : Env) (id other : String) (payload : Json) (db : WorkflowDb)
    → get other (update_payload env id payload db) ≡ (
        if other == id
        then Option.map {A = WorkflowRequest}
            (λ req. record req { payload = payload; updated_at = env.now })
            (get id db)
        else get other db)
unfolding update_payload get row_to_request
get-update_payload env id other payload db =
    let write : WorkflowRow → WorkflowRow =
      λ row. record row { payload = payload; updated_at = env.now } in
    ground (arith, row_of-update row_id write id other db.requests (λ row. refl))

-- `transition` of a stored request: written where the step is legal, refused where it is not.
pub transition-found :
    (env : Env) (id : String) (to : State) (a r : Option String) (actor : String) (db : WorkflowDb)
    {req : WorkflowRequest}
    → get id db ≡ some req
    → transition env id to a r actor db ≡ (
        if can_transition req.state to
        then ok (write_transition env to a r actor req db)
        else err (invalid_transition (as_str req.state) (as_str to)))
unfolding transition check_transition
transition-found env id to a r actor db {req} found =
    elim (Bool-cases (can_transition req.state to)) [
      | inl legal ↦ ground (arith, found, legal)
      | inr illegal ↦ ground (arith, found, illegal)
    ]
