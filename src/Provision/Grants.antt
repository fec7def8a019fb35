-- ===== src/Provision/Grants.antt =====
-- crates/provision/src/lib.rs: a grant of access between two resources of a project.
-- What a grant is made of: the consumer, the target, and what each contributes.
use frontkeep.Base.{
  ℕ, String, ◌&&◌, Option, some, List, [], ◌∷◌, map, ◌==◌, ◌>>=◌, ◌>>◌, ok_or, ensure, Result, err,
  ok, join, get_key,
}
use frontkeep.Base.Float.{Float}
use frontkeep.Base.Json.{texts, json, get_str, Json, str, array}
use frontkeep.Policy.Engine.{PolicyEngine}
use frontkeep.Provision.Connectors.{Service}
use frontkeep.Provision.Enqueue.{JsonText, RequestOutcome}
use frontkeep.Provision.Manifest.{
  not_found, text_of, GrantCfg, ServiceManifest, ProvisionError, unsupported, invalid_spec,
  not_permitted,
}
use frontkeep.Provision.Repo.{find_record, ProvisionedRecord}
use frontkeep.Provision.Requests.{request_inner}
use frontkeep.Provision.ServiceCatalog.{get_service}
use frontkeep.Provision.Worker.{ProvisionDb}
use frontkeep.Registry.Records.{Registration}
use frontkeep.Storage.Env.{Env}

pub record GrantTerms (F : Float) : Type 0 where
  pub consumer : ProvisionedRecord F
  pub target : ProvisionedRecord F
  pub grant : GrantCfg
  pub principal : String
  pub target_arn : String
  pub actions : List String

module _ {F : Float} where
  -- The steps of the checks, in their order.
  abbrev pub both_resources :
      String → ProvisionedRecord F → ProvisionedRecord F → Result ProvisionError (Unit {0})
  both_resources project consumer target =
      ensure (consumer.project_id == project && target.project_id == project)
        (not_permitted "consumer and target must belong to the same project")
      >> ensure (consumer.state == "provisioned" && target.state == "provisioned")
          (invalid_spec "both resources must be provisioned before granting access")

  -- The identity that the consumer's service provides, in the kind that the target's grant takes.
  abbrev pub principal_of :
      ProvisionedRecord F
      → ProvisionedRecord F
      → ServiceManifest F
      → GrantCfg
      → Result ProvisionError String
  principal_of consumer target cm grant = do
    kind ← ok_or cm.principal_kind (
        invalid_spec (
          text_of
            ("'" ∷ consumer.rtype ∷ "' cannot be granted access (declares no principal)" ∷ [])))
    ensure (kind == grant.principal_kind) (
        invalid_spec (
          text_of (
            "principal-kind mismatch: '" ∷ consumer.rtype ∷ "' provides '" ∷ kind ∷ "', '"
            ∷ target.rtype ∷ "' grants to '" ∷ grant.principal_kind ∷ "'" ∷ [])))
    key ←
        ok_or cm.principal_output
          (invalid_spec (text_of ("'" ∷ consumer.rtype ∷ "' declares no principal_output" ∷ [])))
    ok_or (get_str consumer.outputs key) (
        invalid_spec
          (text_of ("consumer '" ∷ consumer.name ∷ "' has no output '" ∷ key ∷ "'" ∷ [])))

module _ {F : Float} (svc : Service F) where
  abbrev no_level : ProvisionedRecord F → ServiceManifest F → String → ProvisionError
  no_level target tm level = invalid_spec (
      text_of (
        "'"
        ∷ target.rtype
        ∷ "' has no access level '"
        ∷ level
        ∷ "' (known: "
        ∷ join (map (λ l. l.0) tm.access_levels) ", "
        ∷ ")"
        ∷ []))

  unfoldable pub grant_terms :
      (project consumer_id target_id level : String)
      → ProvisionDb F
      → Result ProvisionError (GrantTerms F)
  grant_terms project consumer_id target_id level db = do
    consumer ← ok_or (find_record consumer_id db.rows) (not_found consumer_id)
    target ← ok_or (find_record target_id db.rows) (not_found target_id)
    both_resources project consumer target
    cm ← ok_or (get_service consumer.rtype svc.catalog) (unsupported consumer.rtype)
    tm ← ok_or (get_service target.rtype svc.catalog) (unsupported target.rtype)
    grant ←
        ok_or tm.grant
          (invalid_spec (text_of ("'" ∷ target.rtype ∷ "' is not a grantable target" ∷ [])))
    principal ← principal_of consumer target cm grant
    target_arn ←
        ok_or (get_str target.outputs "arn")
          (invalid_spec (text_of ("target '" ∷ target.name ∷ "' has no 'arn' output" ∷ [])))
    actions ← ok_or (get_key tm.access_levels level) (no_level target tm level)
    ok (record {
      consumer = consumer;
      target = target;
      grant = grant;
      principal = principal;
      target_arn = target_arn;
      actions = actions;
    })

  abbrev pub grant_spec : (consumer_id target_id level : String) → GrantTerms F → Json
  grant_spec consumer_id target_id level terms = json (
      ("consumer_resource_id", str consumer_id)
      ∷ ("target_resource_id", str target_id)
      ∷ ("level", str level)
      ∷ ("principal_role_arn", str terms.principal)
      ∷ ("target_arn", str terms.target_arn)
      ∷ ("actions", array (texts terms.actions))
      ∷ [])

module _ {F : Float} (svc : Service F) (registered : String → Option (Registration F))
    (policy : PolicyEngine) (text : JsonText) (env env_rec : Env)
    (others : ℕ → ProvisionDb F → ProvisionDb F) where
  unfoldable pub request_grant :
      (project consumer_id target_id level requester : String)
      → ProvisionDb F
      → ProvisionDb F × Result ProvisionError (RequestOutcome F)
  request_grant project consumer_id target_id level requester db =
      elim (grant_terms svc project consumer_id target_id level db) [
        | err e ↦ (db, err e)
        | ok terms ↦
            request_inner svc registered policy text env env_rec others project "access-grant"
              (text_of
                ("grant-" ∷ terms.consumer.name ∷ "-" ∷ terms.target.name ∷ "-" ∷ level ∷ []))
              (grant_spec svc consumer_id target_id level terms) requester
              (some (json (("module", str terms.grant.module_path) ∷ []))) db
      ]
