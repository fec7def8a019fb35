-- ===== src/Registry/Promotion.antt =====
-- crates/registry/src/promotion.rs: the verdict on a project's evidence. Texts that only a person
-- reads are kept.
use frontkeep.Base.{
  String, Bool, true, false, not, ◌&&◌, ◌||◌, List, [], ◌∷◌, ◌++◌, ◌==◌, if◌then◌else◌, keep,
  is_empty, contains, unwrap_or, join, is_blank, concat, get_key,
}
use frontkeep.Base.Float.{Float}
use frontkeep.Registry.Records.{Registration}
use frontkeep.Registry.Tiers.{required_through, ClassificationRequirements}

pub record EvidenceVerdict : Type 0 where
  pub target : String
  pub evidence_complete : Bool
  pub missing : List String
  pub exception_signals : List String
  pub unverified_signals : List String

-- `auto_approvable`
abbrev pub auto_approvable : EvidenceVerdict → Bool
auto_approvable v = v.evidence_complete && is_empty v.exception_signals

abbrev unverified : List String
unverified =
    "requested tier may be below observed usage/exposure/cost (no telemetry source)"
    ∷ "public / partner / regulated access may be involved (no exposure field)"
    ∷ "a human may have reported a concern (no report channel)" ∷ []

abbrev pub filled : String → Bool
filled s = not (is_blank s)

-- A signal, where its condition holds.
abbrev pub signal : Bool → String → List String
signal true s = s ∷ []
signal false s = []

module _ {F : Float} where
  -- The fields that `field_present` knows, each with whether it is there.
  abbrev presence : Registration F → List (String × Bool)
  presence reg =
      let ev = reg.evidence in
      ("owner", filled reg.owner)
      ∷ ("manager", filled reg.manager)
      ∷ ("group", filled reg.group)
      ∷ ("data_class", filled reg.data_class)
      ∷ ("description", filled reg.description)
      ∷ ("requested_classification", filled ev.requested_classification)
      ∷ ("repo_or_source_url", filled ev.repo_or_source_url)
      ∷ ("business_owner", filled ev.business_owner)
      ∷ ("technical_owner", filled ev.technical_owner)
      ∷ ("team_or_org_of_record", filled ev.team_or_org_of_record)
      ∷ ("support_contact", filled ev.support_contact)
      ∷ ("runbook_url", filled ev.runbook_url)
      ∷ ("monitoring_or_logs_url", filled ev.monitoring_or_logs_url)
      ∷ ("ci_status_url", filled ev.ci_status_url)
      ∷ ("critical_flow_test_or_eval_url", filled ev.critical_flow_test_or_eval_url)
      ∷ ("state_loss_posture", filled ev.state_loss_posture)
      ∷ ("stack_exception", filled ev.stack_exception)
      ∷ ("security_review_status", filled ev.security_review_status)
      ∷ ("architecture_summary_url", filled ev.architecture_summary_url)
      ∷ ("incident_path", filled ev.incident_path)
      ∷ ("slo_or_service_target", filled ev.slo_or_service_target)
      ∷ ("rpo_rto", filled ev.rpo_rto)
      ∷ ("decommission_path", filled ev.decommission_path)
      ∷ ("executive_accountable_owner", filled ev.executive_accountable_owner)
      ∷ ("risk_acceptance_url", filled ev.risk_acceptance_url)
      ∷ ("dr_exercise_evidence_url", filled ev.dr_exercise_evidence_url)
      ∷ ("audit_retention_requirement", filled ev.audit_retention_requirement)
      ∷ ("recurring_review_date", filled ev.recurring_review_date)
      ∷ ("maintainers", not (is_empty ev.maintainers))
      ∷ ("critical_dependencies", not (is_empty ev.critical_dependencies))
      ∷ ("primary_data_flows", not (is_empty ev.primary_data_flows))
      ∷ []

  unfoldable pub field_present : Registration F → String → Bool
  field_present reg name = unwrap_or (get_key (presence reg) name) false

  abbrev pub is_sensitive : Registration F → Bool
  is_sensitive reg = reg.data_class == "confidential" || reg.data_class == "restricted"

  abbrev pub is_reviewed : Registration F → Bool
  is_reviewed reg =
      reg.evidence.security_review_status == "approved"
      || reg.evidence.security_review_status == "waived"

  abbrev security_text : Registration F → String
  security_text reg = concat "data_class '" (
      concat reg.data_class (
        concat "' present without an approved/waived security review (status: '" (
          concat
            (if reg.evidence.security_review_status == ""
              then "not declared"
              else reg.evidence.security_review_status)
            "')")))

  abbrev pub absent_paths : Registration F → List String → List String
  absent_paths reg required =
      let absent : String → List String =
        λ f. signal (contains required f && not (field_present reg f)) f in
      signal (is_blank reg.owner) "owner"
      ++ absent "team_or_org_of_record"
      ++ absent "support_contact"
      ++ absent "decommission_path"

  unfoldable pub evaluate : Registration F → String → ClassificationRequirements → EvidenceVerdict
  evaluate reg target reqs =
      let required = required_through reqs target in
      let missing = keep (λ f. not (field_present reg f)) required in
      let paths = absent_paths reg required in
      record {
        target = target;
        evidence_complete = is_empty missing;
        missing = missing;
        exception_signals =
            signal (not (is_empty missing)) "required evidence missing or empty"
            ++ signal (is_sensitive reg && not (is_reviewed reg)) (security_text reg)
            ++ signal (filled reg.evidence.stack_exception) "a stack exception is declared"
            ++ signal (not (is_empty paths))
                (concat "no credible accountability path: " (concat (join paths ", ") " empty"));
        unverified_signals = unverified;
      }
