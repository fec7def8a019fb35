-- ===== src/Registry/Tests.antt =====
-- crates/registry: promotions and review jobs at concrete inputs.
use frontkeep.Base.{
  ℕ, ◌+◌, String, ◌≡◌, refl, true, not, ◌&&◌, ◌||◌, none, some, List, [], ◌∷◌, is_some, Result, err,
  ok, is_blank,
}
use frontkeep.Base.Json.{null}
use frontkeep.Policy.Engine.{PolicyEngine, allow, requires}
use frontkeep.Registry.Claims.{claim-IsUnique, claim_next-returns}
use frontkeep.Registry.Drain.{drain_reviews}
use frontkeep.Registry.Drained.{drain_reviews-returns}
use frontkeep.Registry.Escalation.{
  IsRouted, finalize_promotion-IsRouted, fail_review_closed-flagged,
}
use frontkeep.Registry.Finalize.{finalize_promotion, fail_review_closed}
use frontkeep.Registry.Outcomes.{empty_outcome, RegistryDb}
use frontkeep.Registry.Promotion.{
  evaluate, auto_approvable, filled, field_present, is_sensitive, is_reviewed,
}
use frontkeep.Registry.Records.{Registration}
use frontkeep.Registry.ReviewJobs.{claim, enqueue, claim_next, ReviewJob, JobRow}
use frontkeep.Registry.Samples.{whole, full_evidence, registered_project}
use frontkeep.Registry.Tiers.{
  classifications, tier_rank, default_requirements, required_through, RegistryError, not_registered,
}
use frontkeep.Registry.Verdicts.{all_present, evaluate-auto_approvable}
use frontkeep.Storage.Env.{Env}
use frontkeep.Workflow.Engine.{
  row_to_request, request_to_row, audit, initial, submit, get, WorkflowRequest, NewRequest,
  WorkflowDb,
}
use frontkeep.Workflow.Lookup.{state_of}
use frontkeep.Workflow.State.{parse, can_transition, State, requested, flagged}
use frontkeep.Workflow.Trail.Run.{empty}
use frontkeep.Workflow.Transitions.{
  store_state, check_transition, write_transition, transition, after, review,
}

abbrev at : ℕ → Env
at now = record { now = now; uid = "j1"; audit_uid = "audit" }

evaluate-auto_approvable_example :
    auto_approvable (evaluate registered_project "light-operational" default_requirements) ≡ (
      all_present registered_project (required_through default_requirements "light-operational")
      && (not (is_sensitive registered_project) || is_reviewed registered_project)
      && is_blank full_evidence.stack_exception
      && filled "alice")
evaluate-auto_approvable_example =
    evaluate-auto_approvable registered_project "light-operational" default_requirements

-- The project above may be approved.
approvable_example :
    auto_approvable (evaluate registered_project "light-operational" default_requirements) ≡ true
unfolding evaluate field_present required_through default_requirements tier_rank classifications
approvable_example = refl

abbrev queue : List JobRow
queue = (enqueue (at 5) "r1" "p1" "light-operational" []).0

abbrev queued : JobRow
queued = record {
  id = "j1";
  request_id = "r1";
  project_id = "p1";
  target = "light-operational";
  status = "pending";
  attempts = 0;
  lease_until = none;
  last_error = none;
  created_at = 5;
  updated_at = 5;
}

claim_next-returns_example :
    is_some
      (claim_next (at 8) 60 ((λ now. (claim (at 7) 80 "j1" now).0) ∷ (λ now. now) ∷ []) queue).1
    ≡ true
unfolding enqueue
claim_next-returns_example =
    claim_next-returns (at 8) 60 ((λ now. (claim (at 7) 80 "j1" now).0) ∷ []) queue (refl, tt)
      ((λ rows u. claim-IsUnique (at 7) 80 "j1" rows u), tt)

abbrev to_lead : PolicyEngine
to_lead query = record { effect = allow; reasons = []; obligations = requires "platform_lead" ∷ [] }

abbrev promotion : NewRequest
promotion = record {
  kind = "promotion";
  requester = "alice";
  subject = "project:p1";
  payload = null;
  sla_seconds = some 60;
}

abbrev submitted : WorkflowDb × WorkflowRequest
submitted = submit to_lead (at 1000) promotion empty

abbrev under_review : WorkflowDb
under_review = after submitted.0 (review (at 2000) "j1" "alice" submitted.0)

abbrev tables : WorkflowDb → RegistryDb
tables w = record { workflow = w; reviews = []; jobs = [] }

finalize_promotion-IsRouted_example : IsRouted "j1" requested flagged (
    finalize_promotion
      (at 3000)
      submitted.1
      "p1"
      "light-operational"
      requested
      empty_outcome
      true
      "alice"
      (tables submitted.0))
unfolding submit initial request_to_row audit get row_to_request frontkeep.Workflow.State.as_str
    parse
finalize_promotion-IsRouted_example =
    finalize_promotion-IsRouted (at 3000) submitted.1 "p1" "light-operational" requested
      empty_outcome true "alice" (tables submitted.0) refl

abbrev job : ReviewJob
job = record {
  id = "j1";
  request_id = "j1";
  project_id = "p1";
  target = "light-operational";
  status = "running";
  attempts = 3;
}

fail_review_closed-flagged_example :
    ((fail_review_closed (at 3000) job "timeout" (tables under_review)).1 ≡ ok tt)
    × (state_of "j1" (fail_review_closed (at 3000) job "timeout" (tables under_review)).0.workflow
        ≡ some flagged)
unfolding submit initial request_to_row audit get row_to_request frontkeep.Workflow.State.as_str
    parse review transition check_transition write_transition store_state can_transition
fail_review_closed-flagged_example =
    fail_review_closed-flagged (at 3000) job "timeout" (tables under_review) refl

-- A registry that knows no project: every review fails, and the job waits for its next attempt.
abbrev nowhere : String → Result RegistryError (Registration whole)
nowhere id = err (not_registered id)

drain_reviews-returns_example :
    is_some
      (drain_reviews
        (λ e. "error")
        nowhere
        default_requirements
        none
        (λ n. at (9000 + n))
        (record (tables under_review) { jobs = queue })).1
    ≡ true
unfolding enqueue
drain_reviews-returns_example =
    drain_reviews-returns (λ e. "error") nowhere default_requirements none (λ n. at (9000 + n))
      (record (tables under_review) { jobs = queue }) (refl, tt)
