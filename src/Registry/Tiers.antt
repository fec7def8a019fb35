-- ===== src/Registry/Tiers.antt =====
-- crates/registry/src/promotion.rs: the tiers, a step up, and the fields that each tier requires.
use mathlib.Core.Option
use frontkeep.Base.{
  ℕ, zero, suc, ◌+◌, String, Option, none, some, List, [], ◌∷◌, ◌++◌, ◌==◌, leb, eqb, if◌then◌else◌,
  unwrap_or, ◌>>=◌, ok_or, ensure, Result, concat,
}
use frontkeep.Workflow.Engine.{WorkflowError}

unfoldable pub classifications : List String
classifications = "poc" ∷ "light-operational" ∷ "wide-operational" ∷ "critical-path" ∷ []

abbrev pub position : String → List String → Option ℕ
position s [] = none
position s (x ∷ xs) =
    let rest = position s xs in if x == s then some 0 else Option.map (λ n. n + 1) rest

abbrev pub nth : ℕ → List String → Option String
nth n [] = none
nth zero (x ∷ xs) = some x
nth (suc n) (x ∷ xs) = nth n xs

unfoldable pub tier_rank : String → Option ℕ
tier_rank classification = position classification classifications

unfoldable pub next_tier : String → Option String
next_tier classification = elim (tier_rank classification) [
  | none ↦ none
  | some rank ↦ nth (rank + 1) classifications
]

pub data RegistryError : Type 0 where
  validation not_registered inactive : String → RegistryError
  workflow_error : WorkflowError → RegistryError

unfoldable pub validate_step : String → String → Result RegistryError (Unit {0})
validate_step current target = do
  cur ←
      ok_or (tier_rank current)
        (validation (concat "unknown classification '" (concat current "'")))
  tgt ←
      ok_or (tier_rank target) (validation (concat "unknown classification '" (concat target "'")))
  ensure (eqb tgt (cur + 1)) (
      validation (
        concat "promotion must be exactly one step up (from '" (
          concat current (
            concat "' the only target is '"
              (concat (unwrap_or (next_tier current) "<none: already at top tier>") "')")))))

pub record ClassificationRequirements : Type 0 where
  pub light : List String
  pub wide : List String
  pub critical : List String

-- `ClassificationRequirements::default`
unfoldable pub default_requirements : ClassificationRequirements
default_requirements = record {
  light =
      "repo_or_source_url" ∷ "business_owner" ∷ "technical_owner" ∷ "team_or_org_of_record"
      ∷ "support_contact" ∷ "runbook_url" ∷ "monitoring_or_logs_url" ∷ "ci_status_url"
      ∷ "primary_data_flows" ∷ "critical_flow_test_or_eval_url" ∷ "state_loss_posture"
      ∷ "requested_classification" ∷ [];
  wide =
      "security_review_status" ∷ "architecture_summary_url" ∷ "critical_dependencies"
      ∷ "incident_path" ∷ "slo_or_service_target" ∷ "rpo_rto" ∷ "decommission_path" ∷ [];
  critical =
      "executive_accountable_owner" ∷ "risk_acceptance_url" ∷ "dr_exercise_evidence_url"
      ∷ "audit_retention_requirement" ∷ "recurring_review_date" ∷ [];
}

-- One override of `from_overrides`
abbrev override : String × List String → ClassificationRequirements → ClassificationRequirements
override (tier, fields) reqs =
    if tier == "light-operational"
    then record reqs { light = fields }
    else if tier == "wide-operational"
    then record reqs { wide = fields }
    else if tier == "critical-path"
    then record reqs { critical = fields }
    else reqs

abbrev overridden :
    List (String × List String) → ClassificationRequirements → ClassificationRequirements
overridden [] reqs = reqs
overridden (o ∷ os) reqs = overridden os (override o reqs)

unfoldable pub from_overrides : List (String × List String) → ClassificationRequirements
from_overrides overrides = overridden overrides default_requirements

abbrev pub from_rank : ℕ → ℕ → List String → List String
from_rank least rank fields = if leb least rank then fields else []

unfoldable pub required_through : ClassificationRequirements → String → List String
required_through reqs target = elim (tier_rank target) [
  | none ↦ []
  | some rank ↦
      from_rank 1 rank reqs.light ++ from_rank 2 rank reqs.wide ++ from_rank 3 rank reqs.critical
]
