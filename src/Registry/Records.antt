-- ===== src/Registry/Records.antt =====
-- crates/registry/src/evidence.rs and lib.rs: a project's registration and its evidence.
use frontkeep.Base.{ℕ, String, Bool, List}
use frontkeep.Base.Float.{Float}

pub record Evidence : Type 0 where
  pub requested_classification : String
  pub repo_or_source_url : String
  pub business_owner : String
  pub technical_owner : String
  pub team_or_org_of_record : String
  pub support_contact : String
  pub runbook_url : String
  pub monitoring_or_logs_url : String
  pub ci_status_url : String
  pub critical_flow_test_or_eval_url : String
  pub state_loss_posture : String
  pub stack_exception : String
  pub security_review_status : String
  pub architecture_summary_url : String
  pub incident_path : String
  pub slo_or_service_target : String
  pub rpo_rto : String
  pub decommission_path : String
  pub executive_accountable_owner : String
  pub risk_acceptance_url : String
  pub dr_exercise_evidence_url : String
  pub audit_retention_requirement : String
  pub recurring_review_date : String
  pub maintainers : List String
  pub critical_dependencies : List String
  pub primary_data_flows : List String

pub record Registration (F : Float) : Type 0 where
  pub project_id : String
  pub name : String
  pub owner : String
  pub manager : String
  pub group : String
  pub cost_center : String
  pub classification : String
  pub data_class : String
  pub budget_usd : F.F64
  pub spent_usd : F.F64
  pub lifecycle : String
  pub registered : Bool
  pub killed : Bool
  pub description : String
  pub created_at : String
  pub review_date : String
  pub review_state : String
  pub review_extensions : ℕ
  pub stack_exception_renewal_date : String
  pub evidence : Evidence
