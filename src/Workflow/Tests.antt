-- ===== src/Workflow/Tests.antt =====
-- crates/workflow/src/lib.rs: runs of the engine at concrete inputs.
use frontkeep.Base.{
  ℕ, String, ◌≡◌, refl, ◌↔◌, ◌⊎◌, inl, inr, true, false, none, some, List, [], ◌∷◌, ◌==◌,
  if◌then◌else◌, is_some, err,
}
use frontkeep.Base.Json.{null}
use frontkeep.Policy.Engine.{allowed, requires_approval, PolicyEngine, allow, requires}
use frontkeep.Storage.Env.{Env}
use frontkeep.Workflow.Engine.{
  not_found, row_to_request, request_to_row, audit, initial, submit_query, submit, get,
  WorkflowRequest, NewRequest, RequestFilter, invalid_transition, WorkflowDb,
}
use frontkeep.Workflow.Lifecycle.{
  step, run, run-terminal, Call, submits, approves, rejects, fulfills,
}
use frontkeep.Workflow.Lookup.{state_of}
use frontkeep.Workflow.Outcomes.{transition-IsMove, transition-eq-err_iff, IsMove}
use frontkeep.Workflow.Race.{interleaved-last_wins}
use frontkeep.Workflow.State.{
  as_str, parse, can_transition, requested, approved, rejected, fulfilled,
}
use frontkeep.Workflow.Submission.{submit_lem}
use frontkeep.Workflow.Trail.{history, IsTrailed}
use frontkeep.Workflow.Trail.Run.{IsFreshRun, empty, run-IsTrailed, run-fulfilled}
use frontkeep.Workflow.Transitions.{
  store_state, check_transition, write_transition, transition, approve, reject, fulfill,
}

abbrev to_lead : PolicyEngine
to_lead query = record { effect = allow; reasons = []; obligations = requires "platform_lead" ∷ [] }

abbrev at : ℕ → String → Env
at now uid = record { now = now; uid = uid; audit_uid = "audit" }

abbrev promotion : NewRequest
promotion = record {
  kind = "promotion";
  requester = "alice";
  subject = "project:p1";
  payload = null;
  sla_seconds = some 60;
}

abbrev stored : WorkflowDb
stored = (submit to_lead (at 1000 "r1") promotion empty).0

abbrev waiting : WorkflowRequest
waiting = (submit to_lead (at 1000 "r1") promotion empty).1

abbrev calls : List (Env × Call)
calls =
    (at 1000 "r1", submits promotion)
    ∷ (at 2000 "", approves "r1" "bob" none)
    ∷ (at 3000 "", rejects "r1" "bob" none)
    ∷ (at 4000 "", fulfills "r1" "bob")
    ∷ []

abbrev pending : RequestFilter
pending = record { state = some requested; requester = none; subject = none; limit = some 1 }

transition-IsMove_example :
    IsMove
      (at 2000 "")
      "r1"
      approved
      (some "bob")
      none
      "bob"
      stored
      (write_transition (at 2000 "") approved (some "bob") none "bob" waiting stored)
unfolding transition check_transition get submit initial row_to_request request_to_row audit as_str
    parse can_transition write_transition store_state
transition-IsMove_example =
    transition-IsMove (at 2000 "") "r1" approved (some "bob") none "bob" stored refl

transition-eq-err_iff_example :
    (transition (at 2000 "") "r2" approved none none "bob" stored ≡ err (not_found "r2")) ↔ (
      ((get "r2" stored ≡ none) × (not_found "r2" ≡ not_found "r2"))
      ⊎ ((req : WorkflowRequest) × (get "r2" stored ≡ some req)
          × (can_transition req.state approved ≡ false)
          × (not_found "r2" ≡ invalid_transition (as_str req.state) (as_str approved))))
transition-eq-err_iff_example =
    transition-eq-err_iff (at 2000 "") "r2" approved none none "bob" stored (not_found "r2")

run-terminal_example : state_of "r1" (run to_lead (run to_lead empty calls) calls) ≡ some fulfilled
unfolding run step transition check_transition get submit initial row_to_request request_to_row
    audit as_str parse can_transition write_transition store_state approve reject fulfill
run-terminal_example =
    run-terminal to_lead (run to_lead empty calls) calls "r1" fulfilled (inr (inl refl)) refl

fresh_calls : IsFreshRun to_lead empty calls
unfolding get
fresh_calls = (refl, (tt, (tt, (tt, tt))))

run-IsTrailed_example : IsTrailed "r1" (run to_lead empty calls)
run-IsTrailed_example = run-IsTrailed to_lead calls "r1" fresh_calls

run-fulfilled_example :
    (earlier : List String) × (history "r1" (run to_lead empty calls).audit_log
      ≡ "fulfilled" ∷ "approved" ∷ earlier)
unfolding run step transition check_transition get submit initial row_to_request request_to_row
    audit as_str parse can_transition write_transition store_state approve reject fulfill
run-fulfilled_example = run-fulfilled to_lead calls "r1" fresh_calls refl

submit_lem_example :
    (((submit to_lead (at 1000 "r1") promotion empty).1.state ≡ rejected)
      ↔ (allowed (to_lead (submit_query promotion)) ≡ false))
    × (((submit to_lead (at 1000 "r1") promotion empty).1.state ≡ requested) ↔ (
        (allowed (to_lead (submit_query promotion)) ≡ true)
        × (is_some (requires_approval (to_lead (submit_query promotion))) ≡ true)))
    × (((submit to_lead (at 1000 "r1") promotion empty).1.state ≡ approved) ↔ (
        (allowed (to_lead (submit_query promotion)) ≡ true)
        × (requires_approval (to_lead (submit_query promotion)) ≡ none)))
    × ((submit to_lead (at 1000 "r1") promotion empty).1.approver ≡ some "platform_lead")
    × ((other : String)
        → get other stored ≡ (if other == "r1" then some waiting else get other empty))
unfolding get
submit_lem_example = submit_lem to_lead (at 1000 "r1") promotion empty refl

interleaved-last_wins_example :
    state_of "r1"
      (write_transition
        (at 2001 "")
        rejected
        (some "carol")
        none
        "carol"
        waiting
        (write_transition (at 2000 "") approved (some "bob") none "bob" waiting stored).0).0
    ≡ some rejected
unfolding transition check_transition get submit initial row_to_request request_to_row audit as_str
    parse can_transition
interleaved-last_wins_example =
    interleaved-last_wins (at 2000 "") (at 2001 "") "r1" approved rejected (some "bob") none
      (some "carol") none "bob" "carol" stored waiting refl refl

-- So a request that was approved ends rejected, though no transition leads there.
approved_then_rejected : can_transition approved rejected ≡ false
unfolding can_transition
approved_then_rejected = refl
