-- ===== src/Workflow/Race.antt =====
-- crates/workflow/src/lib.rs: two calls whose reads both come before either write. The UPDATE of
-- `transition` names the id only, so the second write does not see the first.
use frontkeep.Base.{String, ◌≡◌, refl, Option, some, eq_refl, arith, ok, row_of-update}
use frontkeep.Registry.ReviewJobs.{first}
use frontkeep.Storage.Env.{Env}
use frontkeep.Workflow.Engine.{row_to_request, audit, get, WorkflowRequest, WorkflowDb}
use frontkeep.Workflow.Lookup.{row_id, state_of, get-id, get-eq-some, get-write_transition}
use frontkeep.Workflow.State.{parse-as_str, State}
use frontkeep.Workflow.Transitions.{moved, store_state, check_transition, write_transition}

-- A write stores its state whatever the row has become since it was read.
state_of-write :
    (env : Env) (to : State) (a r : Option String) (actor id : String) (req old : WorkflowRequest)
    (db : WorkflowDb)
    → req.id ≡ id
    → get id db ≡ some old
    → state_of id (write_transition env to a r actor req db).0 ≡ some to
unfolding write_transition get audit row_to_request store_state
state_of-write env to a r actor id req old db same h =
    let (row, found, read) = get-eq-some id db h in
    let store = store_state (moved env to a r req) in
    ground (
      arith,
      row_of-update row_id store req.id id db.requests (λ row. refl),
      found,
      parse-as_str to,
      eq_refl id,
    )

check_transition-found :
    (id : String) (to : State) (db : WorkflowDb) {req : WorkflowRequest}
    → check_transition id to db ≡ ok req
    → get id db ≡ some req
unfolding check_transition
check_transition-found id to db {req} h = ground arith

-- When two calls have both read a request and found their steps legal, both succeed, and the
-- request ends in the state of the one that writes last, whether or not that state can be reached
-- from the other's.
pub interleaved-last_wins :
    (env env' : Env) (id : String) (to to' : State) (a r a' r' : Option String)
    (actor actor' : String) (db : WorkflowDb) (req : WorkflowRequest)
    → check_transition id to db ≡ ok req
    → check_transition id to' db ≡ ok req
    → state_of id
        (write_transition env' to' a' r' actor' req (write_transition env to a r actor req db).0).0
      ≡ some to'
interleaved-last_wins env env' id to to' a r a' r' actor actor' db req first second =
    let found : get id db ≡ some req = check_transition-found id to db first in
    let same = get-id id db found in
    let moved_on = get-write_transition env to a r actor id id req db found in
    state_of-write env' to' a' r' actor' id req (moved env to a r req)
      (write_transition env to a r actor req db).0 same (ground (arith, moved_on, eq_refl id))
