-- ===== src/Workflow/Outcomes.antt =====
-- crates/workflow/src/lib.rs: `transition` on every branch.
use frontkeep.Base.{
  String, ◌≡◌, refl, ap, subst, ◌↔◌, ◌⊎◌, inl, inr, true, false, Option, none, some, [], ◌∷◌, ◌++◌,
  ◌==◌, arith, if◌then◌else◌, Option-cases, >>=-eq-ok, ok, err, concat,
}
use frontkeep.Base.Json.{get_str}
use frontkeep.Storage.Audit.{AuditRecord}
use frontkeep.Storage.Env.{Env}
use frontkeep.Workflow.Engine.{
  get, audit, WorkflowRequest, WorkflowError, not_found, invalid_transition, WorkflowDb,
}
use frontkeep.Workflow.Lookup.{get-id, get-write_transition}
use frontkeep.Workflow.State.{as_str, can_transition, State}
use frontkeep.Workflow.Transitions.{moved, check_transition, write_transition, transition}

module _ (env : Env) (id : String) (to : State) (a r : Option String) (actor : String)
    (db : WorkflowDb) where
  -- What a successful transition leaves behind: the request read before it, from whose state the
  -- step is legal; the result, which is that request moved; what a read of any id finds after it;
  -- and the audit record that is new.
  pub record IsMove (out : WorkflowDb × WorkflowRequest) : Type 0 where
    pub before : WorkflowRequest
    pub found : get id db ≡ some before
    pub legal : can_transition before.state to ≡ true
    pub result : out.1 ≡ moved env to a r before
    pub reads :
        (other : String) → get other out.0 ≡ (if other == id then some out.1 else get other db)
    pub entry : AuditRecord
    pub logged : out.0.audit_log ≡ db.audit_log ++ entry ∷ []
    pub entry_actor : entry.actor ≡ actor
    pub entry_action : entry.action ≡ concat "workflow." (as_str to)
    pub entry_outcome : entry.outcome ≡ as_str to
    pub entry_request : get_str entry.data_json "request_id" ≡ some id

  check_transition-ok :
      {req : WorkflowRequest}
      → check_transition id to db ≡ ok req
      → (get id db ≡ some req) × (can_transition req.state to ≡ true)
  unfolding check_transition
  check_transition-ok {req} h = ground arith

  write_transition-IsMove :
      (req : WorkflowRequest)
      → get id db ≡ some req
      → can_transition req.state to ≡ true
      → IsMove (write_transition env to a r actor req db)
  unfolding write_transition audit
  write_transition-IsMove req found legal = record {
    before = req;
    found = found;
    legal = legal;
    result = refl;
    reads = λ other. get-write_transition env to a r actor id other req db found;
    entry = _;
    logged = refl;
    entry_actor = refl;
    entry_action = refl;
    entry_outcome = refl;
    entry_request = ap some (get-id id db found);
  }

  -- A transition succeeds only for a stored request and a legal step. It then returns the request
  -- with the new state, the given approver and reason where there are any and the time of the call;
  -- a read finds that under its id and every other request unchanged; and the audit log gains one
  -- record, of this actor and step and with the request's id.
  pub transition-IsMove :
      {out : WorkflowDb × WorkflowRequest} → transition env id to a r actor db ≡ ok out → IsMove out
  unfolding transition
  transition-IsMove {out} h =
      let (req, checked, written) = >>=-eq-ok (check_transition id to db) _ h in
      let (found, legal) = check_transition-ok checked in
      subst IsMove (cc) (write_transition-IsMove req found legal)

  -- It fails in two ways, each exactly when: there is no such request, or the step from its state
  -- is not legal, and the error names the two states.
  pub transition-eq-err_iff :
      (e : WorkflowError)
      → (transition env id to a r actor db ≡ err e) ↔ (
          ((get id db ≡ none) × (e ≡ not_found id))
          ⊎ ((req : WorkflowRequest) × (get id db ≡ some req)
              × (can_transition req.state to ≡ false)
              × (e ≡ invalid_transition (as_str req.state) (as_str to))))
  unfolding transition check_transition
  transition-eq-err_iff e = elim (Option-cases (get id db)) [
    | inl missing ↦ (λ h. inl (missing, ground arith), λ h. ground arith)
    | inr (req, found) ↦ (λ h. inr (req, found, ground arith, ground arith), λ h. ground arith)
  ]
