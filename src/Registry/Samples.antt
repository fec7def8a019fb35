-- ===== src/Registry/Samples.antt =====
-- crates/registry: data for the tests.
use frontkeep.Base.{ℕ, ◌+◌, ◌-◌, ◌*◌, ◌/◌, true, false, [], ◌∷◌, ltb, leb}
use frontkeep.Base.Float.{Float}
use frontkeep.Base.Json.{number}
use frontkeep.Registry.Records.{Evidence, Registration}

abbrev pub whole : Float
whole = record {
  F64 = ℕ;
  F32 = ℕ;
  zero = 0;
  of_nat = λ n. n;
  tenths = λ n. n / 10;
  add = λ a b. a + b;
  sub = λ a b. a - b;
  mul = λ a b. a * b;
  div = λ a b. a / b;
  lt = ltb;
  le = leb;
  text4 = λ a. "";
  text2 = λ a. "";
  json = number;
}

abbrev pub full_evidence : Evidence
full_evidence = record {
  requested_classification = "there";
  repo_or_source_url = "there";
  business_owner = "there";
  technical_owner = "there";
  team_or_org_of_record = "there";
  support_contact = "there";
  runbook_url = "there";
  monitoring_or_logs_url = "there";
  ci_status_url = "there";
  critical_flow_test_or_eval_url = "there";
  state_loss_posture = "there";
  stack_exception = "";
  security_review_status = "approved";
  architecture_summary_url = "there";
  incident_path = "there";
  slo_or_service_target = "there";
  rpo_rto = "there";
  decommission_path = "there";
  executive_accountable_owner = "there";
  risk_acceptance_url = "there";
  dr_exercise_evidence_url = "there";
  audit_retention_requirement = "there";
  recurring_review_date = "there";
  maintainers = "alice" ∷ [];
  critical_dependencies = "db" ∷ [];
  primary_data_flows = "in" ∷ [];
}

abbrev pub registered_project : Registration whole
registered_project = record {
  project_id = "p1";
  name = "P";
  owner = "alice";
  manager = "bob";
  group = "g";
  cost_center = "";
  classification = "poc";
  data_class = "restricted";
  budget_usd = 10;
  spent_usd = 0;
  lifecycle = "active";
  registered = true;
  killed = false;
  description = "d";
  created_at = "";
  review_date = "";
  review_state = "";
  review_extensions = 0;
  stack_exception_renewal_date = "";
  evidence = full_evidence;
}
