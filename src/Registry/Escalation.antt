-- ===== src/Registry/Escalation.antt =====
-- crates/registry/src/lib.rs: where `finalize_promotion` and `fail_review_closed` send a request.
use frontkeep.Base.{
  String, ◌≡◌, refl, subst, inl, inr, Bool, true, false, ◌||◌, Option, none, some, eq_refl, arith,
  if◌then◌else◌, Bool-cases, Option-cases, Result, err, ok,
}
use frontkeep.Registry.Finalize.{
  is_settled, on_workflow, flag_summary, log_flagged, route, finalize_promotion, failed_outcome,
  fail_review_closed,
}
use frontkeep.Registry.Outcomes.{pre_review_state, persist_reviews, ReviewerOutcome, RegistryDb}
use frontkeep.Registry.ReviewJobs.{ReviewJob}
use frontkeep.Registry.Tiers.{RegistryError}
use frontkeep.Storage.Env.{Env}
use frontkeep.Workflow.Engine.{project_id, get, WorkflowRequest}
use frontkeep.Workflow.Lookup.{state_of, get-id, get-write_transition, transition-found}
use frontkeep.Workflow.State.{can_transition, is_state, is_state_iff, State, reviewing, flagged}
use frontkeep.Workflow.Transitions.{write_transition, transition, flag, resolve_review}

-- The state that a review sends a request to.
abbrev pub review_target : State → Bool → State
review_target clean_state has_exception = if has_exception then flagged else clean_state

abbrev pub result_state : Result RegistryError WorkflowRequest → Option State
result_state (err e) = none
result_state (ok req) = some req.state

-- Whether a review may send a request from one state to another: a settled request stays, and so
-- does one that is there already.
abbrev pub may_rest : State → State → Bool
may_rest s t = is_settled s || is_state s t || can_transition s t

abbrev pub rests_in : State → State → State
rests_in s t = if is_settled s then s else t

-- What is returned and what is stored when an operation moves a request, or fails to.
abbrev Moves : String → State → State → RegistryDb × Result RegistryError WorkflowRequest → Type 0
Moves id s t (db, result) =
    (result_state result ≡ (if can_transition s t then some t else none))
    × (state_of id db.workflow ≡ some (if can_transition s t then t else s))

transition-Moves :
    (env : Env) (id : String) (to : State) (a r : Option String) (actor : String) (db : RegistryDb)
    (stored : WorkflowRequest)
    → get id db.workflow ≡ some stored
    → Moves id stored.state to (on_workflow db (transition env id to a r actor db.workflow))
unfolding write_transition
transition-Moves env id to a r actor db stored found =
    let e = transition-found env id to a r actor db.workflow found in
    let reads = get-write_transition env to a r actor id id stored db.workflow found in
    elim (Bool-cases (can_transition stored.state to)) [
      | inl legal ↦ rw (e, legal) (refl, ground (arith, reads, eq_refl id))
      | inr illegal ↦ rw (e, illegal) (refl, ground (arith, found))
    ]

-- The request that a review is about, as it is stored: found under its id, in the same state.
abbrev pub IsStored : WorkflowRequest → RegistryDb → Type 0
IsStored req db = state_of req.id db.workflow ≡ some req.state

stored_request :
    (req : WorkflowRequest) (db : RegistryDb)
    → IsStored req db
    → (stored : WorkflowRequest) × (get req.id db.workflow ≡ some stored)
      × (stored.state ≡ req.state)
stored_request req db h = elim (Option-cases (get req.id db.workflow)) [
  | inl missing ↦ ground (arith, missing)
  | inr (stored, found) ↦ (stored, found, ground (arith, found))
]

-- What a review of a request in state `s` returns and stores when it is to send it to `t`.
abbrev pub IsRouted :
    String → State → State → RegistryDb × Result RegistryError WorkflowRequest → Type 0
IsRouted id s t (db, result) =
    (result_state result ≡ (if may_rest s t then some (rests_in s t) else none))
    × (state_of id db.workflow ≡ some (if may_rest s t then rests_in s t else s))

Moves-IsRouted :
    (id : String) (s t : State) (out : RegistryDb × Result RegistryError WorkflowRequest)
    → is_settled s ≡ false
    → is_state s t ≡ false
    → Moves id s t out
    → IsRouted id s t out
Moves-IsRouted id s t (db, result) unsettled apart (a, b) = (ground arith, ground arith)

log_flagged-IsRouted :
    (env : Env) (project_id target id : String) (outcome : ReviewerOutcome) (actor : String)
    (s t : State) (out : RegistryDb × Result RegistryError WorkflowRequest)
    → IsRouted id s t out
    → IsRouted id s t (log_flagged env project_id target outcome actor out)
unfolding get
log_flagged-IsRouted env project_id target id outcome actor s t (db, err e) h = h
log_flagged-IsRouted env project_id target id outcome actor s t (db, ok req) h = h

stays-IsRouted :
    (req : WorkflowRequest) (t : State) (db : RegistryDb)
    → (is_settled req.state || is_state req.state t) ≡ true
    → IsStored req db
    → IsRouted req.id req.state t (db, ok req)
stays-IsRouted req t db there h =
    (ground (arith, is_state_iff req.state t), ground (arith, is_state_iff req.state t))

transition-IsRouted :
    (env : Env) (req : WorkflowRequest) (to : State) (reason actor : String) (db : RegistryDb)
    → IsStored req db
    → is_settled req.state ≡ false
    → is_state req.state to ≡ false
    → IsRouted req.id req.state to
        (on_workflow db (transition env req.id to none (some reason) actor db.workflow))
transition-IsRouted env req to reason actor db h unsettled apart =
    let (stored, found, same) = stored_request req db h in
    let out = on_workflow db (transition env req.id to none (some reason) actor db.workflow) in
    Moves-IsRouted req.id req.state to out unsettled apart (
      subst (λ s. Moves req.id s to out) same
        (transition-Moves env req.id to none (some reason) actor db stored found))

route-IsRouted :
    (env : Env) (req : WorkflowRequest) (project_id target : String) (clean_state : State)
    (outcome : ReviewerOutcome) (has_exception : Bool) (actor : String) (db : RegistryDb)
    → IsStored req db
    → IsRouted req.id req.state
        (review_target clean_state has_exception)
        (route env req project_id target clean_state outcome has_exception actor db)
unfolding route flag resolve_review
route-IsRouted env req project_id target clean_state outcome true actor db h =
    let logged = log_flagged env project_id target outcome actor in
    let out = route env req project_id target clean_state outcome true actor db in
    let moved_to = logged (
      on_workflow db
        (transition env req.id flagged none (some (flag_summary outcome)) actor db.workflow)) in
    let routed = IsRouted req.id req.state flagged in
    elim (Bool-cases (is_settled req.state)) [
      | inl settled ↦
          subst routed {x = (db, ok req)} {y = out} (ground arith)
            (stays-IsRouted req flagged db (ground arith) h)
      | inr unsettled ↦ elim (Bool-cases (is_state req.state flagged)) [
        | inl there ↦ subst routed {x = logged (db, ok req)} {y = out} (ground arith) (
            log_flagged-IsRouted env project_id target req.id outcome actor req.state flagged
              (db, ok req) (stays-IsRouted req flagged db (ground arith) h))
        | inr apart ↦ subst routed {x = moved_to} {y = out} (ground arith) (
            log_flagged-IsRouted env project_id target req.id outcome actor req.state flagged _ (
              transition-IsRouted env req flagged (flag_summary outcome) actor db h unsettled
                apart))
      ]
    ]
route-IsRouted env req project_id target clean_state outcome false actor db h =
    let routed = IsRouted req.id req.state clean_state in
    let out = route env req project_id target clean_state outcome false actor db in
    let moved_to = on_workflow db (
      transition env req.id clean_state none (some "review passed; no findings") actor
        db.workflow) in
    elim (Bool-cases (is_settled req.state)) [
      | inl settled ↦
          subst routed {x = (db, ok req)} {y = out} (ground arith)
            (stays-IsRouted req clean_state db (ground arith) h)
      | inr unsettled ↦ elim (Bool-cases (is_state req.state clean_state)) [
        | inl there ↦
            subst routed {x = (db, ok req)} {y = out} (ground arith)
              (stays-IsRouted req clean_state db (ground arith) h)
        | inr apart ↦ subst routed {x = moved_to} {y = out} (ground arith) (
            transition-IsRouted env req clean_state "review passed; no findings" actor db h
              unsettled apart)
      ]
    ]

-- For a request that is stored in the state it carries: a settled one is left alone. Any other the
-- review sends to flagged where there is an exception, and to the clean state that it is given
-- where there is none: it succeeds exactly when the request is there already or may move there, and
-- it then returns and stores that state; when it fails the stored state is as before.
pub finalize_promotion-IsRouted :
    (env : Env) (req : WorkflowRequest) (project_id target : String) (clean_state : State)
    (outcome : ReviewerOutcome) (has_exception : Bool) (actor : String) (db : RegistryDb)
    → IsStored req db
    → IsRouted req.id req.state
        (review_target clean_state has_exception)
        (finalize_promotion env req project_id target clean_state outcome has_exception actor db)
unfolding finalize_promotion persist_reviews
finalize_promotion-IsRouted env req project_id target clean_state outcome has_exception actor db h =
    route-IsRouted env req project_id target clean_state outcome has_exception actor
      (persist_reviews req.id project_id outcome db) h

-- When a review could not be run, a request that is still under review ends flagged, and the call
-- succeeds.
pub fail_review_closed-flagged :
    (env : Env) (job : ReviewJob) (error : String) (db : RegistryDb)
    → state_of job.request_id db.workflow ≡ some reviewing
    → ((fail_review_closed env job error db).1 ≡ ok tt)
      × (state_of job.request_id (fail_review_closed env job error db).0.workflow ≡ some flagged)
unfolding fail_review_closed can_transition
fail_review_closed-flagged env job error db h =
    elim (Option-cases (get job.request_id db.workflow)) [
      | inl missing ↦ ground (arith, missing)
      | inr (req, found) ↦
          let here : req.state ≡ reviewing = ground (arith, found) in
          let same = get-id job.request_id db.workflow found in
          let stored : IsStored req db = ground (arith, found, same, here) in
          let out =
            finalize_promotion env req job.project_id job.target (pre_review_state req)
              (failed_outcome error) true "system" db in
          let routed : IsRouted req.id reviewing flagged out =
            subst (λ s. IsRouted req.id s flagged out) here
              (finalize_promotion-IsRouted env req job.project_id job.target (pre_review_state req)
                (failed_outcome error) true "system" db stored) in
          let (result, state) = routed in
          (ground (arith, found, here, result), ground (arith, found, here, state, same))
    ]
