-- ===== src/Registry/Finalize.antt =====
-- crates/registry/src/lib.rs: a promotion's resting state after its review. A project's
-- registration is read through an argument, `require_active`; the reviewer panel is an argument.
use frontkeep.Base.{
  String, Bool, true, false, not, ◌||◌, Option, none, some, [], ◌∷◌, if◌then◌else◌, is_empty,
  unwrap_or, ◌>>=◌, Result, err, ok, is_blank, concat,
}
use frontkeep.Base.Float.{Float}
use frontkeep.Base.Json.{texts, json, set_key, Json, bool, str, array}
use frontkeep.Registry.Outcomes.{
  empty_outcome, pre_review_state, persist_reviews, ReviewerOutcome, RegistryDb,
}
use frontkeep.Registry.Promotion.{evaluate, EvidenceVerdict}
use frontkeep.Registry.Records.{Registration}
use frontkeep.Registry.ReviewJobs.{ReviewJob}
use frontkeep.Registry.Tiers.{
  RegistryError, not_registered, workflow_error, ClassificationRequirements,
}
use frontkeep.Storage.Audit.{new_record, append}
use frontkeep.Storage.Env.{Env}
use frontkeep.Workflow.Engine.{project_id, get, WorkflowRequest}
use frontkeep.Workflow.State.{is_state, State, reviewing, flagged, rejected, fulfilled, cancelled}
use frontkeep.Workflow.Transitions.{Outcome, flag, resolve_review, update_payload}

abbrev pub is_settled : State → Bool
is_settled rejected = true
is_settled cancelled = true
is_settled fulfilled = true
is_settled _ = false

-- A workflow operation on the registry's tables; `?` passes its error on.
abbrev pub on_workflow : RegistryDb → Outcome → RegistryDb × Result RegistryError WorkflowRequest
on_workflow db (err e) = (db, err (workflow_error e))
on_workflow db (ok (w, req)) = (record db { workflow = w }, ok req)

abbrev pub flag_summary : ReviewerOutcome → String
flag_summary outcome =
    if is_blank outcome.summary then "promotion blocked by review findings" else outcome.summary

-- The record that says a promotion was flagged.
abbrev pub log_flagged :
    Env
    → String
    → String
    → ReviewerOutcome
    → String
    → RegistryDb × Result RegistryError WorkflowRequest
    → RegistryDb × Result RegistryError WorkflowRequest
log_flagged env project_id target outcome actor (db, err e) = (db, err e)
log_flagged env project_id target outcome actor (db, ok req) = (
  record db {
    workflow = record db.workflow {
      audit_log =
          append
            (record (new_record env actor "project.promotion_flagged") {
              entity_ref = some (concat "project:" project_id);
              outcome = "flagged";
              reason = some (unwrap_or req.reason "");
              data_json = json (
                  ("request_id", str req.id)
                  ∷ ("target", str target)
                  ∷ ("findings", array (texts outcome.findings))
                  ∷ ("reviewers", array (texts outcome.reviewer_ids))
                  ∷ []);
            })
            db.workflow.audit_log;
    };
  },
  ok req,
)

-- After the verdicts are stored.
unfoldable pub route :
    Env
    → WorkflowRequest
    → (project_id target : String) → State
    → ReviewerOutcome
    → Bool
    → String
    → RegistryDb
    → RegistryDb × Result RegistryError WorkflowRequest
route env req project_id target clean_state outcome has_exception actor db =
    if is_settled req.state
    then (db, ok req)
    else if has_exception
    then log_flagged env project_id target outcome actor (
        if is_state req.state flagged
        then (db, ok req)
        else on_workflow db (flag env req.id actor (flag_summary outcome) db.workflow))
    else if is_state req.state clean_state
    then (db, ok req)
    else on_workflow db
        (resolve_review env req.id clean_state "review passed; no findings" actor db.workflow)

unfoldable pub finalize_promotion :
    Env
    → WorkflowRequest
    → (project_id target : String) → State
    → ReviewerOutcome
    → Bool
    → String
    → RegistryDb
    → RegistryDb × Result RegistryError WorkflowRequest
finalize_promotion env req project_id target clean_state outcome has_exception actor db =
    route env req project_id target clean_state outcome has_exception actor
      (persist_reviews req.id project_id outcome db)

-- A panel's `review`
abbrev pub Panel : Float → Type 0
Panel F = Registration F → String → EvidenceVerdict → ReviewerOutcome

abbrev with_summary : ReviewerOutcome → Json → Json
with_summary outcome payload =
    set_key
      (set_key
        (set_key (set_key payload "review_passed" (bool outcome.passed)) "review_findings"
          (array (texts outcome.findings)))
        "review_summary" (str outcome.summary))
      "reviewers_ran" (array (texts outcome.reviewer_ids))

module _ {F : Float} where
  abbrev pub job_outcome :
      Option (Panel F) → Registration F → String → EvidenceVerdict → ReviewerOutcome
  job_outcome none reg target verdict = empty_outcome
  job_outcome (some panel) reg target verdict =
      if is_empty verdict.exception_signals then panel reg target verdict else empty_outcome

  -- From the re-evaluation on, for a request that is still under review.
  unfoldable pub run_reviewing :
      Env
      → ClassificationRequirements
      → Option (Panel F)
      → ReviewJob
      → WorkflowRequest
      → Registration F
      → RegistryDb
      → RegistryDb × Result RegistryError WorkflowRequest
  run_reviewing env reqs panel job req reg db =
      let verdict = evaluate reg job.target reqs in
      let outcome = job_outcome panel reg job.target verdict in
      let has_exception =
        not (is_empty verdict.exception_signals)
        || not (is_empty outcome.added_exception_signals) in
      let payload = with_summary outcome req.payload in
      finalize_promotion env (record req { payload = payload }) job.project_id job.target
        (pre_review_state req) outcome has_exception "system"
        (record db { workflow = update_payload env req.id payload db.workflow })

  -- With the registration, or the reason why the project is not live.
  abbrev pub reviewed :
      Env
      → ClassificationRequirements
      → Option (Panel F)
      → ReviewJob
      → WorkflowRequest
      → RegistryDb
      → Result RegistryError (Registration F)
      → RegistryDb × Result RegistryError WorkflowRequest
  reviewed env reqs panel job req db (err e) = (db, err e)
  reviewed env reqs panel job req db (ok reg) = run_reviewing env reqs panel job req reg db

  unfoldable pub run_review_job :
      Env
      → (String → Result RegistryError (Registration F))
      → ClassificationRequirements
      → Option (Panel F)
      → ReviewJob
      → RegistryDb
      → RegistryDb × Result RegistryError WorkflowRequest
  run_review_job env require_active reqs panel job db = elim (get job.request_id db.workflow) [
    | none ↦ (db, err (not_registered job.request_id))
    | some req ↦
        if not (is_state req.state reviewing)
        then (db, ok req)
        else reviewed env reqs panel job req db (require_active job.project_id)
  ]

-- What `fail_review_closed` reports.
abbrev pub failed_outcome : String → ReviewerOutcome
failed_outcome error = record {
  passed = false;
  added_exception_signals = concat "automated code review did not complete: " error ∷ [];
  findings = concat "code review failed to complete after retries: " error ∷ [];
  summary = "code review unavailable — fix and retry, or escalate";
  reviewer_ids = "code-review" ∷ [];
  verdicts_json = [];
}

unfoldable pub fail_review_closed :
    Env → ReviewJob → String → RegistryDb → RegistryDb × Result RegistryError (Unit {0})
fail_review_closed env job error db = elim (get job.request_id db.workflow) [
  | none ↦ (db, ok tt)
  | some req ↦
      if not (is_state req.state reviewing)
      then (db, ok tt)
      else let (db', result) =
          finalize_promotion env req job.project_id job.target (pre_review_state req)
            (failed_outcome error) true "system" db in
        (db', result >>= λ req. ok tt)
]
