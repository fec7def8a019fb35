-- ===== src/Workflow/Lifecycle.antt =====
-- crates/workflow/src/lib.rs: the engine driven by any sequence of calls.
use mathlib.Core.Option
use frontkeep.Base.{
  String, ◌≡◌, refl, ap, inl, inr, true, Option, none, some, List, [], ◌∷◌, ◌==◌, eq_iff, arith,
  Bool-cases, Option-cases, err, ok,
}
use frontkeep.Base.Json.{Json}
use frontkeep.Policy.Engine.{PolicyEngine}
use frontkeep.Storage.Env.{Env}
use frontkeep.Workflow.Engine.{submit, get, NewRequest, WorkflowDb}
use frontkeep.Workflow.Lookup.{state_of, get-submit, get-submit_taken, get-update_payload}
use frontkeep.Workflow.Outcomes.{transition-IsMove}
use frontkeep.Workflow.State.{
  can_transition, IsTerminal, terminal_no_exit, State, requested, reviewing, flagged, approved,
  rejected, fulfilled, cancelled,
}
use frontkeep.Workflow.Transitions.{
  transition, Outcome, after, approve, reject, already, fulfill, cancel, flag, escalate, review,
  resolve_review, update_payload,
}

-- A call of the engine with its arguments.
pub data Call : Type 0 where
  submits : NewRequest → Call
  approves rejects : (id who : String) → Option String → Call
  fulfills cancels escalates reviews : (id actor : String) → Call
  flags : (id actor summary : String) → Call
  resolves : (id : String) → State → (reason actor : String) → Call
  rewrites : (id : String) → Json → Call

unfoldable pub step : PolicyEngine → WorkflowDb → Env × Call → WorkflowDb
step policy db (env, submits new) = (submit policy env new db).0
step policy db (env, approves id who reason) = after db (approve env id who reason db)
step policy db (env, rejects id who reason) = after db (reject env id who reason db)
step policy db (env, fulfills id actor) = after db (fulfill env id actor db)
step policy db (env, cancels id actor) = after db (cancel env id actor db)
step policy db (env, escalates id actor) = after db (escalate env id actor db)
step policy db (env, reviews id actor) = after db (review env id actor db)
step policy db (env, flags id actor summary) = after db (flag env id actor summary db)
step policy db (env, resolves id to reason actor) =
    after db (resolve_review env id to reason actor db)
step policy db (env, rewrites id payload) = update_payload env id payload db

unfoldable pub run : PolicyEngine → WorkflowDb → List (Env × Call) → WorkflowDb
run policy db [] = db
run policy db (c ∷ cs) = run policy (step policy db c) cs

-- How one call may change the state of one request.
pub data Evolves (before after : Option State) : Type 0 where
  stays : after ≡ before → Evolves before after
  born : (s : State) → before ≡ none → after ≡ some s → Evolves before after
  moves :
      (s t : State)
      → can_transition s t ≡ true
      → before ≡ some s
      → after ≡ some t
      → Evolves before after

transition-Evolves :
    (other : String) (env : Env) (id : String) (to : State) (a r : Option String) (actor : String)
    (db : WorkflowDb)
    → Evolves (state_of other db) (state_of other (after db (transition env id to a r actor db)))
transition-Evolves other env id to a r actor db = go (transition env id to a r actor db) refl
  where
    go :
        (out : Outcome)
        → transition env id to a r actor db ≡ out
        → Evolves (state_of other db) (state_of other (after db out))
    go (err e) h = stays refl
    go (ok (db', req')) h =
        let m = transition-IsMove env id to a r actor db h in
        elim (Bool-cases (other == id)) [
          | inl hit ↦
              moves m.before.state to m.legal (ground (arith, m.found, eq_iff other id))
                (ground (arith, m.reads other, m.result))
          | inr miss ↦ stays (ground (arith, m.reads other))
        ]

fulfill-Evolves :
    (other : String) (env : Env) (id actor : String) (db : WorkflowDb)
    → Evolves (state_of other db) (state_of other (after db (fulfill env id actor db)))
unfolding fulfill
fulfill-Evolves other env id actor db = elim (Option-cases (already fulfilled (get id db))) [
  | inl not_yet ↦
      rw (not_yet, fulfill) (transition-Evolves other env id fulfilled none none actor db)
  | inr (req, done) ↦ rw (done, fulfill) (stays refl)
]

-- An insert under an id that the table has already is not found: the older row is.
submit-Evolves :
    (other : String) (policy : PolicyEngine) (env : Env) (new : NewRequest) (db : WorkflowDb)
    → Evolves (state_of other db) (state_of other (submit policy env new db).0)
submit-Evolves other policy env new db = elim (Option-cases (get env.uid db)) [
  | inl fresh ↦ elim (Bool-cases (other == env.uid)) [
    | inl hit ↦
        born (submit policy env new db).1.state (ground (arith, fresh, eq_iff other env.uid))
          (ground (arith, get-submit policy env new other db fresh))
    | inr miss ↦ stays (ground (arith, get-submit policy env new other db fresh))
  ]
  | inr (req, taken) ↦
      stays (ap (Option.map (λ q. q.state)) (get-submit_taken policy env new other db taken))
]

update_payload-Evolves :
    (other : String) (env : Env) (id : String) (payload : Json) (db : WorkflowDb)
    → Evolves (state_of other db) (state_of other (update_payload env id payload db))
update_payload-Evolves other env id payload db =
    stays (ground (arith, get-update_payload env id other payload db, eq_iff other id))

pub step-Evolves :
    (policy : PolicyEngine) (other : String) (db : WorkflowDb) (c : Env × Call)
    → Evolves (state_of other db) (state_of other (step policy db c))
unfolding step approve reject cancel escalate review flag resolve_review
step-Evolves policy other db (env, submits new) = submit-Evolves other policy env new db
step-Evolves policy other db (env, approves id who reason) =
    transition-Evolves other env id approved (some who) reason who db
step-Evolves policy other db (env, rejects id who reason) =
    transition-Evolves other env id rejected (some who) reason who db
step-Evolves policy other db (env, fulfills id actor) = fulfill-Evolves other env id actor db
step-Evolves policy other db (env, cancels id actor) =
    transition-Evolves other env id cancelled none _ actor db
step-Evolves policy other db (env, escalates id actor) =
    transition-Evolves other env id requested none _ actor db
step-Evolves policy other db (env, reviews id actor) =
    transition-Evolves other env id reviewing none _ actor db
step-Evolves policy other db (env, flags id actor summary) =
    transition-Evolves other env id flagged none _ actor db
step-Evolves policy other db (env, resolves id to reason actor) =
    transition-Evolves other env id to none _ actor db
step-Evolves policy other db (env, rewrites id payload) =
    update_payload-Evolves other env id payload db

Evolves-terminal :
    {before after : Option State} {s : State}
    → IsTerminal s
    → Evolves before after
    → before ≡ some s
    → after ≡ some s
Evolves-terminal final (stays e) h = cc
Evolves-terminal final (born s e f) h = cc
Evolves-terminal {s} final (moves s' t legal e f) h = ground (arith, terminal_no_exit s t final)

-- Whatever calls follow, a request that was rejected, fulfilled or cancelled stays so.
pub run-terminal :
    (policy : PolicyEngine) (db : WorkflowDb) (cs : List (Env × Call)) (id : String) (s : State)
    → IsTerminal s
    → state_of id db ≡ some s
    → state_of id (run policy db cs) ≡ some s
unfolding run
run-terminal policy db [] id s final h = h
run-terminal policy db (c ∷ cs) id s final h =
    run-terminal policy (step policy db c) cs id s final
      (Evolves-terminal final (step-Evolves policy id db c) h)
