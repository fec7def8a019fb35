-- ===== src/Registry/Outcomes.antt =====
-- crates/registry/src/promotion_reviewer.rs and lib.rs: what a review reports and how its verdicts
-- are stored. The cost column of the verdicts is left out.
use frontkeep.Base.{String, Bool, true, none, some, List, [], ◌++◌, map, unwrap_or}
use frontkeep.Base.Json.{get_str, Json}
use frontkeep.Registry.ReviewJobs.{JobRow}
use frontkeep.Workflow.Engine.{WorkflowRequest, WorkflowDb}
use frontkeep.Workflow.State.{parse, State, requested}

pub record ReviewerOutcome : Type 0 where
  pub passed : Bool
  pub added_exception_signals : List String
  pub findings : List String
  pub summary : String
  pub reviewer_ids : List String
  pub verdicts_json : List Json

-- `ReviewerOutcome::empty`
abbrev pub empty_outcome : ReviewerOutcome
empty_outcome = record {
  passed = true;
  added_exception_signals = [];
  findings = [];
  summary = "";
  reviewer_ids = [];
  verdicts_json = [];
}

-- A row of `promotion_reviews`
pub record ReviewRow : Type 0 where
  pub request_id : String
  pub project_id : String
  pub reviewer_id : String
  pub kind : String
  pub disposition : String
  pub verdict_json : Json
  pub model : String

pub record RegistryDb : Type 0 where
  pub workflow : WorkflowDb
  pub reviews : List ReviewRow
  pub jobs : List JobRow

unfoldable pub pre_review_state : WorkflowRequest → State
pre_review_state req = elim (get_str req.payload "pre_review_state") [
  | none ↦ requested
  | some s ↦ parse s
]

abbrev review_row : String → String → Json → ReviewRow
review_row request_id project_id v =
    let s : String → String = λ k. unwrap_or (get_str v k) "" in
    record {
      request_id = request_id;
      project_id = project_id;
      reviewer_id = s "reviewer_id";
      kind = s "kind";
      disposition = s "disposition";
      verdict_json = v;
      model = s "model";
    }

unfoldable pub persist_reviews : String → String → ReviewerOutcome → RegistryDb → RegistryDb
persist_reviews request_id project_id outcome db = record db {
  reviews = db.reviews ++ map (review_row request_id project_id) outcome.verdicts_json;
}
