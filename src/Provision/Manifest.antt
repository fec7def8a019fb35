-- ===== src/Provision/Manifest.antt =====
-- crates/provision/src/manifest.rs: the services that a project can ask for. The texts of the
-- manifests (YAML) are read by a parameter of ServiceCatalog.
use frontkeep.Base.{
  ℕ, String, Bool, true, false, not, Option, none, some, List, [], ◌∷◌, ◌==◌, ltb, if◌then◌else◌,
  contains, unwrap_or, or_else, ◌>>◌, ensure, Result, ok, join, is_blank, get_key,
}
use frontkeep.Base.Float.{Float}
use frontkeep.Base.Json.{json, get_str, Json, null}
use frontkeep.Registry.Tiers.{RegistryError}
use frontkeep.Workflow.Engine.{WorkflowError}

module _ (F : Float) where
  pub record Variant : Type 0 where
    pub estimated_monthly_usd : Option F.F64
    pub classification_min : Option String
    pub requires_approval : Bool

  pub record Variants : Type 0 where
    pub field : String
    pub options : List (String × Variant)

  pub record Resolved : Type 0 where
    pub estimated_monthly_usd : F.F64
    pub classification_min : Option String
    pub force_review : Bool

  pub record CostCfg : Type 0 where
    pub model : String
    pub estimated_monthly_usd : F.F64
    -- `source.type`
    pub source_type : String

pub record RetryCfg : Type 0 where
  pub max_attempts : Option ℕ
  pub base_secs : Option ℕ
  pub cap_secs : Option ℕ

pub record GrantCfg : Type 0 where
  pub module_path : String
  pub principal_kind : String

pub record InferenceCfg : Type 0 where
  pub kind : String
  pub api_key_env : String

pub record ProvisionerCfg : Type 0 where
  pub connector : String
  pub config : Json

-- `InferenceCfg` is kept to the two fields that `validate` reads.
pub record ServiceManifest (F : Float) : Type 0 where
  pub id : String
  pub name : String
  pub category : String
  pub status : String
  pub classification_min : Option String
  pub classification_max : Option String
  pub description : String
  pub auto_approvable : Bool
  pub required_fields : List String
  pub secret_outputs : List String
  pub provisioner : ProvisionerCfg
  pub cost : CostCfg F
  pub tags : List String
  pub documentation : Option String
  pub inference : Option InferenceCfg
  pub variants : Option (Variants F)
  pub access_levels : List (String × List String)
  pub grant : Option GrantCfg
  pub principal_output : Option String
  pub principal_kind : Option String
  pub long_running : Bool
  pub retry : Option RetryCfg

pub data ProvisionError : Type 0 where
  unsupported invalid_spec ref_not_found backend_error conflict not_permitted :
      String → ProvisionError
  not_found : String → ProvisionError
  registry_failed : RegistryError → ProvisionError
  workflow_failed : WorkflowError → ProvisionError

abbrev pub known_connectors : List String
known_connectors = "terraform" ∷ "exec" ∷ "http" ∷ "mcp" ∷ "litellm" ∷ "stub" ∷ []

abbrev pub inference_kinds : List String
inference_kinds = "openai" ∷ "anthropic" ∷ "openai-compatible" ∷ []

abbrev pub known_cost_sources : List String
known_cost_sources =
    "none" ∷ "free" ∷ "flat" ∷ "gateway" ∷ "aws-cost-explorer" ∷ "gcp-billing"
    ∷ "azure-cost-management" ∷ "databricks-billing" ∷ "litellm" ∷ "exec" ∷ []

abbrev pub classifications : List String
classifications = "poc" ∷ "light-operational" ∷ "wide-operational" ∷ "critical-path" ∷ []

unfoldable pub class_rank : String → ℕ
class_rank c =
    if c == "light-operational"
    then 1
    else if c == "wide-operational"
    then 2
    else if c == "critical-path"
    then 3
    else 0

-- `format!` of several pieces
abbrev pub text_of : List String → String
text_of pieces = join pieces ""

abbrev pub below_floor : Option String → String → Bool
below_floor none classification = false
below_floor (some low) classification = ltb (class_rank classification) (class_rank low)

abbrev pub above_ceiling : Option String → String → Bool
above_ceiling none classification = false
above_ceiling (some high) classification = ltb (class_rank high) (class_rank classification)

-- `Null` becomes an empty object.
abbrev pub config_object : Json → Json
config_object null = json []
config_object v = v

-- `validate`: what it asks of the inference block and of a classification.
abbrev pub inference_ok : String → Option InferenceCfg → Result ProvisionError (Unit {0})
inference_ok id none = ok tt
inference_ok id (some inf) =
    ensure (contains inference_kinds inf.kind) (
      invalid_spec
        (text_of ("service '" ∷ id ∷ "': unknown inference kind '" ∷ inf.kind ∷ "'" ∷ [])))
    >> ensure (not (is_blank inf.api_key_env))
        (invalid_spec (text_of ("service '" ∷ id ∷ "': inference.api_key_env is required" ∷ [])))

abbrev pub class_ok : String → Option String → Result ProvisionError (Unit {0})
class_ok id none = ok tt
class_ok id (some c) =
    ensure (contains classifications c)
      (invalid_spec (text_of ("service '" ∷ id ∷ "': unknown classification '" ∷ c ∷ "'" ∷ [])))

module _ {F : Float} where
  -- The option that a request's specification selects.
  abbrev pub selected : Variants F → Json → Option (Variant F)
  selected v spec = elim (get_str spec v.field) [ none ↦ none | some key ↦ get_key v.options key ]

  unfoldable pub resolve : ServiceManifest F → Json → Resolved F
  resolve m spec =
      let base : Resolved F = record {
        estimated_monthly_usd = m.cost.estimated_monthly_usd;
        classification_min = m.classification_min;
        force_review = false;
      } in
      elim m.variants [
        | none ↦ base
        | some v ↦ elim (selected v spec) [
          | some o ↦ record {
            estimated_monthly_usd = unwrap_or o.estimated_monthly_usd base.estimated_monthly_usd;
            classification_min = or_else o.classification_min base.classification_min;
            force_review = o.requires_approval;
          }
          | none ↦ record base { force_review = true }
        ]
      ]

  unfoldable pub tier_violation : ServiceManifest F → String → Resolved F → Option String
  tier_violation m classification resolved =
      let floor = or_else resolved.classification_min m.classification_min in
      if below_floor floor classification
      then some (
          text_of (
            "service '"
            ∷ m.id
            ∷ "' requires classification '"
            ∷ unwrap_or floor ""
            ∷ "' or higher (project is '"
            ∷ classification
            ∷ "')"
            ∷ []))
      else if above_ceiling m.classification_max classification
      then some (
          text_of (
            "service '"
            ∷ m.id
            ∷ "' is only available up to classification '"
            ∷ unwrap_or m.classification_max ""
            ∷ "' (project is '"
            ∷ classification
            ∷ "')"
            ∷ []))
      else none

  abbrev pub connector_config : ServiceManifest F → Json
  connector_config m = config_object m.provisioner.config

  unfoldable pub validate : ServiceManifest F → Result ProvisionError (Unit {0})
  validate m =
      ensure (not (is_blank m.id)) (invalid_spec "manifest has empty id")
      >> ensure (contains known_connectors m.provisioner.connector) (
          invalid_spec (
            text_of
              ("service '" ∷ m.id ∷ "': unknown connector '" ∷ m.provisioner.connector ∷ "'" ∷ [])))
      >> ensure (contains known_cost_sources m.cost.source_type) (
          invalid_spec (
            text_of
              ("service '" ∷ m.id ∷ "': unknown cost source '" ∷ m.cost.source_type ∷ "'" ∷ [])))
      >> inference_ok m.id m.inference
      >> class_ok m.id m.classification_min
      >> class_ok m.id m.classification_max
