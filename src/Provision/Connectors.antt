-- ===== src/Provision/Connectors.antt =====
-- crates/provision/src/lib.rs: the connectors, what they are asked, and the service's settings. A
-- connector is a parameter: what its calls give.
use frontkeep.Base.{
  ℕ, String, Bool, ◌&&◌, Option, none, some, List, [], ◌∷◌, ◌==◌, if◌then◌else◌, unwrap_or, Result,
  get_key,
}
use frontkeep.Base.Float.{Float}
use frontkeep.Base.Json.{json, Json}
use frontkeep.Provision.Manifest.{connector_config, RetryCfg, ServiceManifest, ProvisionError}
use frontkeep.Provision.Repo.{ProvisionedRecord}
use frontkeep.Provision.ServiceCatalog.{ServiceCatalog, get_service}
use frontkeep.Provision.Worker.{RetryPolicy}
use frontkeep.Registry.Records.{Registration}

pub record CloudTarget : Type 0 where
  pub cloud : String
  pub account : String

pub record ResourceContext : Type 0 where
  pub project_id : String
  pub owner : String
  pub manager : String
  pub group : String
  pub cost_center : String
  pub classification : String
  pub environment : String
  pub cloud : String
  pub account : String

abbrev pub from_registration : {F : Float} → Registration F → String → String → ResourceContext
from_registration reg cloud account = record {
  project_id = reg.project_id;
  owner = reg.owner;
  manager = reg.manager;
  group = reg.group;
  cost_center = reg.cost_center;
  classification = reg.classification;
  environment = "dev";
  cloud = cloud;
  account = account;
}

unfoldable pub tags_of : ResourceContext → List (String × String)
tags_of ctx =
    ("project", ctx.project_id)
    ∷ ("owner", ctx.owner)
    ∷ ("manager", ctx.manager)
    ∷ ("group", ctx.group)
    ∷ ("cost-center", ctx.cost_center)
    ∷ ("classification", ctx.classification)
    ∷ ("environment", ctx.environment)
    ∷ ("cloud", ctx.cloud)
    ∷ ("account", ctx.account)
    ∷ ("managed-by", "frontkeep")
    ∷ []

module _ {F : Float} where
  unfoldable pub ctx_from_record : ProvisionedRecord F → ResourceContext
  ctx_from_record rec =
      let g : String → String = λ k. unwrap_or (get_key rec.tags k) "" in
      record {
        project_id = rec.project_id;
        owner = g "owner";
        manager = g "manager";
        group = g "group";
        cost_center = g "cost-center";
        classification = g "classification";
        environment = g "environment";
        cloud = g "cloud";
        account = g "account";
      }

pub record ProvisionRequest (F : Float) : Type 0 where
  pub resource_type : String
  pub name : String
  pub ctx : ResourceContext
  pub spec : Json
  pub config : Json
  pub estimated_monthly_usd : F.F64
  pub secret_outputs : List String
  pub resource_id : Option String

pub record Provisioned : Type 0 where
  pub outputs : Json
  pub resource_ids : List String
  pub sensitive_keys : List String

-- `dyn Provisioner`. `apply` is `plan` and then `apply` of the plan.
pub record Provisioner (F : Float) : Type 0 where
  pub name : String
  pub dry_run : Bool
  pub supports : String → Bool
  pub run : ProvisionRequest F → Result ProvisionError Provisioned
  pub tear_down : ProvisionRequest F → Json → Result ProvisionError (Unit {0})
  pub stop : ProvisionRequest F → Json → Result ProvisionError Bool
  pub resume : ProvisionRequest F → Json → Result ProvisionError Bool

-- The settings of `ProvisionService` that its operations read. `stub` is always registered; the
-- others are looked up by name.
pub record Service (F : Float) : Type 0 where
  pub catalog : ServiceCatalog F
  pub backends : List (String × Provisioner F)
  pub stub : Provisioner F
  pub allowed : List CloudTarget
  pub default_cloud : String
  pub default_account : String
  -- `AutoApprovePolicy`
  pub ceilings : List (String × F.F64)
  pub instance_id : String
  pub max_retries : ℕ
  pub wait_budget : ℕ

-- `AutoApprovePolicy::ceiling`
abbrev pub ceiling : {F : Float} → Service F → String → Option F.F64
ceiling svc classification = get_key svc.ceilings classification

abbrev pub is_target : String → String → CloudTarget → Bool
is_target cloud account t = t.cloud == cloud && t.account == account

module _ {F : Float} (svc : Service F) where
  abbrev pub retry_of : String → Option RetryCfg
  retry_of rtype = elim (get_service rtype svc.catalog) [ none ↦ none | some m ↦ m.retry ]

  -- A service's own setting, else the deployment's.
  abbrev pub setting : (RetryCfg → Option ℕ) → ℕ → Option RetryCfg → ℕ
  setting field other none = other
  setting field other (some cfg) = unwrap_or (field cfg) other

  unfoldable pub retry_policy_for : String → RetryPolicy
  retry_policy_for rtype = record {
    max_attempts = setting (λ r. r.max_attempts) svc.max_retries (retry_of rtype);
    base_secs = setting (λ r. r.base_secs) 60 (retry_of rtype);
    cap_secs = setting (λ r. r.cap_secs) 3600 (retry_of rtype);
  }

  unfoldable pub connector_backend : String → Provisioner F
  connector_backend connector = unwrap_or (get_key svc.backends connector) svc.stub

  unfoldable pub connector_and_config : String → String × Json
  connector_and_config rtype = elim (get_service rtype svc.catalog) [
    | some m ↦ (m.provisioner.connector, connector_config m)
    | none ↦ ("stub", json [])
  ]

  abbrev pub request_for : ProvisionedRecord F → Json → List String → ProvisionRequest F
  request_for rec config secret_outputs = record {
    resource_type = rec.rtype;
    name = rec.name;
    ctx = ctx_from_record rec;
    spec = rec.spec;
    config = config;
    estimated_monthly_usd = rec.est_monthly_usd;
    secret_outputs = secret_outputs;
    resource_id = some rec.id;
  }

  unfoldable pub backend_and_req : ProvisionedRecord F → Provisioner F × ProvisionRequest F
  backend_and_req rec =
      let (connector, config) = connector_and_config rec.rtype in
      (connector_backend connector, request_for rec config [])

  -- 0 returns at once.
  abbrev pub budget_for : Option (ServiceManifest F) → ℕ
  budget_for none = svc.wait_budget
  budget_for (some m) = if m.long_running then 0 else svc.wait_budget
