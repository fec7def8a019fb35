-- ===== src/Workflow/Trail/Run.antt =====
-- crates/workflow/src/lib.rs: the audit log of a whole run, for any calls in any order.
-- The generator gives `submit` an id that no request has.
use frontkeep.Base.{String, ◌≡◌, refl, sym, ap, ◌∙◌, none, some, List, [], ◌∷◌, map, arith}
use frontkeep.Policy.Engine.{PolicyEngine}
use frontkeep.Storage.Env.{Env}
use frontkeep.Workflow.Engine.{get, WorkflowDb}
use frontkeep.Workflow.Lifecycle.{
  step, run, Call, submits, approves, rejects, fulfills, cancels, escalates, reviews, flags,
  resolves, rewrites,
}
use frontkeep.Workflow.Lookup.{state_of}
use frontkeep.Workflow.State.{
  as_str, can_transition, State, requested, reviewing, flagged, approved, rejected, fulfilled,
  cancelled,
}
use frontkeep.Workflow.Trail.{
  history, IsPath, head?, transition-IsTrailed, fulfill-IsTrailed, submit-IsTrailed,
  update_payload-IsTrailed, IsTrailed,
}
use frontkeep.Workflow.Transitions.{approve, reject, cancel, flag, escalate, review, resolve_review}

abbrev pub IsFresh : WorkflowDb → Env × Call → Type 0
IsFresh db (env, submits new) = get env.uid db ≡ none
IsFresh db (env, _) = Unit

abbrev pub IsFreshRun : PolicyEngine → WorkflowDb → List (Env × Call) → Type 0
IsFreshRun policy db [] = Unit
IsFreshRun policy db (c ∷ cs) = IsFresh db c × IsFreshRun policy (step policy db c) cs

step-IsTrailed :
    (policy : PolicyEngine) (other : String) (db : WorkflowDb) (c : Env × Call)
    → IsFresh db c
    → IsTrailed other db
    → IsTrailed other (step policy db c)
unfolding step approve reject cancel escalate review flag resolve_review
step-IsTrailed policy other db (env, submits new) fresh v =
    submit-IsTrailed other policy env new db fresh v
step-IsTrailed policy other db (env, approves id who reason) fresh v =
    transition-IsTrailed other env id approved (some who) reason who db v
step-IsTrailed policy other db (env, rejects id who reason) fresh v =
    transition-IsTrailed other env id rejected (some who) reason who db v
step-IsTrailed policy other db (env, fulfills id actor) fresh v =
    fulfill-IsTrailed other env id actor db v
step-IsTrailed policy other db (env, cancels id actor) fresh v =
    transition-IsTrailed other env id cancelled none _ actor db v
step-IsTrailed policy other db (env, escalates id actor) fresh v =
    transition-IsTrailed other env id requested none _ actor db v
step-IsTrailed policy other db (env, reviews id actor) fresh v =
    transition-IsTrailed other env id reviewing none _ actor db v
step-IsTrailed policy other db (env, flags id actor summary) fresh v =
    transition-IsTrailed other env id flagged none _ actor db v
step-IsTrailed policy other db (env, resolves id to reason actor) fresh v =
    transition-IsTrailed other env id to none _ actor db v
step-IsTrailed policy other db (env, rewrites id payload) fresh v =
    update_payload-IsTrailed other env id payload db v

abbrev pub empty : WorkflowDb
empty = record { requests = []; audit_log = [] }

run_from-IsTrailed :
    (policy : PolicyEngine) (other : String) (db : WorkflowDb) (cs : List (Env × Call))
    → IsFreshRun policy db cs
    → IsTrailed other db
    → IsTrailed other (run policy db cs)
unfolding run
run_from-IsTrailed policy other db [] fresh v = v
run_from-IsTrailed policy other db (c ∷ cs) (now, later) v =
    run_from-IsTrailed policy other (step policy db c) cs later
      (step-IsTrailed policy other db c now v)

-- After any sequence of calls on an empty database, if every submitted request got an unused id:
-- the outcomes that the audit log holds for a request form a path of legal transitions from a
-- state that `submit` can give, and the path ends in the state that the table has for it; a
-- request that the table does not have has no records.
pub run-IsTrailed :
    (policy : PolicyEngine) (cs : List (Env × Call)) (id : String)
    → IsFreshRun policy empty cs
    → IsTrailed id (run policy empty cs)
run-IsTrailed policy cs id fresh =
    run_from-IsTrailed policy id empty cs fresh
      (record { path = []; recorded = refl; legal = tt; current = unfold get in refl })

IsPath-fulfilled :
    (path : List State)
    → IsPath path
    → head? path ≡ some fulfilled
    → (rest : List State) × (path ≡ fulfilled ∷ approved ∷ rest)
unfolding can_transition
IsPath-fulfilled [] p e = cc
IsPath-fulfilled (s ∷ []) p e = ground arith
IsPath-fulfilled (t ∷ approved ∷ rest) p e = (rest, ground arith)
IsPath-fulfilled (t ∷ s ∷ rest) p e = ground arith

-- So a request is fulfilled only from approval: the newest two records of a fulfilled request are
-- its fulfilment and, before that, its approval.
pub run-fulfilled :
    (policy : PolicyEngine) (cs : List (Env × Call)) (id : String)
    → IsFreshRun policy empty cs
    → state_of id (run policy empty cs) ≡ some fulfilled
    → (earlier : List String) × (history id (run policy empty cs).audit_log
        ≡ "fulfilled" ∷ "approved" ∷ earlier)
unfolding as_str
run-fulfilled policy cs id fresh done =
    let v = run-IsTrailed policy cs id fresh in
    let (rest, same) = IsPath-fulfilled v.path v.legal (sym v.current ∙ done) in
    (map as_str rest, v.recorded ∙ ap (map as_str) same)
