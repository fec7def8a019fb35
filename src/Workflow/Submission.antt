-- ===== src/Workflow/Submission.antt =====
-- crates/workflow/src/lib.rs: `submit`.
use frontkeep.Base.{String, ◌≡◌, ◌↔◌, true, false, none, some, ◌==◌, arith, if◌then◌else◌, is_some}
use frontkeep.Policy.Engine.{allowed, requires_approval, PolicyEngine, Decision}
use frontkeep.Storage.Env.{Env}
use frontkeep.Workflow.Engine.{get, initial, submit_query, submit, NewRequest, WorkflowDb}
use frontkeep.Workflow.Lookup.{get-submit}
use frontkeep.Workflow.State.{requested, approved, rejected}

initial_lem :
    (d : Decision)
    → (((initial d).0 ≡ rejected) ↔ (allowed d ≡ false))
      × (((initial d).0 ≡ requested)
          ↔ ((allowed d ≡ true) × (is_some (requires_approval d) ≡ true)))
      × (((initial d).0 ≡ approved) ↔ ((allowed d ≡ true) × (requires_approval d ≡ none)))
      × ((initial d).1 ≡ (if allowed d then requires_approval d else none))
unfolding initial
initial_lem d = (ground arith, ground arith, ground arith, ground arith)

-- A new request starts as policy decides: rejected exactly where it denies; waiting for approval
-- exactly where it allows and names an approver, who is then the request's; else approved. Under a
-- fresh id it is then read back as returned, and every other request as before.
pub submit_lem :
    (policy : PolicyEngine) (env : Env) (new : NewRequest) (db : WorkflowDb)
    → get env.uid db ≡ none
    → (((submit policy env new db).1.state ≡ rejected)
        ↔ (allowed (policy (submit_query new)) ≡ false))
      × (((submit policy env new db).1.state ≡ requested) ↔ (
          (allowed (policy (submit_query new)) ≡ true)
          × (is_some (requires_approval (policy (submit_query new))) ≡ true)))
      × (((submit policy env new db).1.state ≡ approved) ↔ (
          (allowed (policy (submit_query new)) ≡ true)
          × (requires_approval (policy (submit_query new)) ≡ none)))
      × ((submit policy env new db).1.approver ≡ (
          if allowed (policy (submit_query new))
          then requires_approval (policy (submit_query new))
          else none))
      × ((other : String)
          → get other (submit policy env new db).0
            ≡ (if other == env.uid then some (submit policy env new db).1 else get other db))
unfolding submit
submit_lem policy env new db fresh =
    let d = policy (submit_query new) in
    let (a, b, c, e) = initial_lem d in
    (a, b, c, e, λ other. get-submit policy env new other db fresh)
