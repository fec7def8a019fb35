-- ===== src/Provision/Apply.antt =====
-- crates/provision/src/lib.rs: the run of a connector for a record, and where its secrets go. The
-- store of secrets (secrets/mod.rs) is a parameter: its state, and what `put` does.
use Prim.Native.Nat.{Ordering}
use Prim.Native.String.{compare}
use frontkeep.Base.{
  ℕ, String, not, Option, none, some, List, [], ◌∷◌, ◌++◌, if◌then◌else◌, contains, ◌>>◌, Result,
  err, ok, concat,
}
use frontkeep.Base.Float.{Float}
use frontkeep.Base.Json.{json, get_field, get_str, set_field, Json, number, str, object, Fields}
use frontkeep.Provision.Connectors.{
  connector_backend, connector_and_config, request_for, backend_and_req, Provisioned, Service,
}
use frontkeep.Provision.Enqueue.{JsonText}
use frontkeep.Provision.Manifest.{text_of, ProvisionError, unsupported}
use frontkeep.Provision.Repo.{ProvisionedRecord}
use frontkeep.Provision.Requests.{with_text}
use frontkeep.Provision.ServiceCatalog.{get_service}
use frontkeep.Provision.Worker.{ProvisionDb}
use frontkeep.Workflow.Engine.{get}

pub record SecretRef : Type 0 where
  pub store : String
  pub at_path : String
  pub version : ℕ

abbrev pub ref_json : SecretRef → Json
ref_json r = json (
    (
      "secret_ref",
      json (("store", str r.store) ∷ ("path", str r.at_path) ∷ ("version", number r.version) ∷ []),
    )
    ∷ [])

pub record SecretStore (S : Type 0) : Type 0 where
  pub put : S → (project name value : String) → S × Result ProvisionError SecretRef

-- `BTreeSet`: a list of different texts, in their order.
abbrev pub place_text : String → List String → List String
place_text s [] = s ∷ []
place_text s (t ∷ ts) =
    let rest = place_text s ts in
    elim (compare s t) [
      | Ordering.lt ↦ s ∷ t ∷ ts
      | Ordering.eq ↦ t ∷ rest
      | Ordering.gt ↦ t ∷ rest
    ]

abbrev pub text_set : List String → List String
text_set [] = []
text_set (s ∷ ss) = let ts = text_set ss in if contains ts s then ts else place_text s ts

-- The text of a value: a string as it is, any other value printed.
abbrev pub secret_text : JsonText → Json → String
secret_text text (str s) = s
secret_text text v = text.to_string v

abbrev pub secret_name : String → String → String
secret_name resource_name key = concat resource_name (concat "-" key)

module _ {S : Type 0} (secrets : SecretStore S) (text : JsonText)
    (project resource_name : String) where
  unfoldable pub route_keys : List String → Fields → S → S × Result ProvisionError Fields
  route_keys [] fs s = (s, ok fs)
  route_keys (key ∷ keys) fs s = elim (get_field fs key) [
    | none ↦ route_keys keys fs s
    | some value ↦
        let stored =
          secrets.put s project (secret_name resource_name key) (secret_text text value) in
        elim stored.1 [
          | err e ↦ (stored.0, err e)
          | ok r ↦ route_keys keys (set_field fs key (ref_json r)) stored.0
        ]
  ]

  abbrev pub with_fields :
      Provisioned → S × Result ProvisionError Fields → S × Result ProvisionError Provisioned
  with_fields p (s, err e) = (s, err e)
  with_fields p (s, ok fs) = (s, ok (record p { outputs = object fs }))

  abbrev pub route_outputs :
      List String → Provisioned → Json → S → S × Result ProvisionError Provisioned
  route_outputs keys p (object fs) s = with_fields p (route_keys keys fs s)
  route_outputs keys p _ s = (s, ok p)

  -- Without a key to route, nothing is done.
  unfoldable pub route_secrets :
      List String → Provisioned → S → S × Result ProvisionError Provisioned
  route_secrets declared p s = route_outputs (text_set (declared ++ p.sensitive_keys)) p p.outputs s

-- The error for a service that its connector does not support.
abbrev pub unsupported_type : {F : Float} → Service F → String → ProvisionError
unsupported_type svc rtype = unsupported (
    text_of (
      "connector '"
      ∷ (connector_and_config svc rtype).0
      ∷ "' does not support '"
      ∷ rtype
      ∷ "'"
      ∷ []))

module _ {F : Float} {S : Type 0} (svc : Service F) (secrets : SecretStore S)
    (text : JsonText) where
  -- The module that the request of a record names, if the service has a handle on the engine.
  abbrev pub module_of : ProvisionDb F → Option String → Option String
  module_of db none = none
  module_of db (some id) =
      if db.wired
      then elim (get id db.workflow) [
        | none ↦ none
        | some req ↦ get_str req.payload "config_module"
      ]
      else none

  abbrev pub apply_config : ProvisionDb F → ProvisionedRecord F → Json
  apply_config db rec =
      with_text "module" (module_of db rec.request_id) (connector_and_config svc rec.rtype).1

  abbrev pub declared_secrets : String → List String
  declared_secrets rtype = elim (get_service rtype svc.catalog) [
    | none ↦ []
    | some m ↦ m.secret_outputs
  ]

  abbrev pub outputs_of : S × Result ProvisionError Provisioned → S × Result ProvisionError Json
  outputs_of (s, err e) = (s, err e)
  outputs_of (s, ok p) = (s, ok p.outputs)

  unfoldable pub run_apply :
      ProvisionDb F → ProvisionedRecord F → S → S × Result ProvisionError Json
  run_apply db rec s =
      let connector = (connector_and_config svc rec.rtype).0 in
      let backend = connector_backend svc connector in
      let declared = declared_secrets rec.rtype in
      if not (backend.supports rec.rtype)
      then (s, err (unsupported_type svc rec.rtype))
      else elim (backend.run (request_for svc rec (apply_config db rec) declared)) [
        | err e ↦ (s, err e)
        | ok p ↦ outputs_of (route_secrets secrets text rec.project_id rec.name declared p s)
      ]

  unfoldable pub run_destroy : ProvisionedRecord F → Result ProvisionError Json
  run_destroy rec =
      let (backend, preq) = backend_and_req svc rec in
      backend.tear_down preq rec.outputs >> ok rec.outputs
