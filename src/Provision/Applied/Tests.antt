-- ===== src/Provision/Applied/Tests.antt =====
-- crates/provision: an apply at a concrete input.
-- A store that lists what was put into it.
use frontkeep.Base.{String, ◌≡◌, refl, true, List, [], ◌∷◌, ◌++◌, contains, ok}
use frontkeep.Base.Json.{json, get_value, Json, str}
use frontkeep.Provision.Applied.{run_apply-IsRouted}
use frontkeep.Provision.Apply.{
  ref_json, route_keys, route_secrets, apply_config, declared_secrets, run_apply, SecretStore,
}
use frontkeep.Provision.Connectors.{
  connector_backend, connector_and_config, request_for, Provisioned, Provisioner, Service,
}
use frontkeep.Provision.Samples.{bucket_row, idle_backend, settings, plain}
use frontkeep.Provision.Secrecy.{IsRouted, Puts}
use frontkeep.Provision.ServiceCatalog.{get_service}
use frontkeep.Provision.Worker.{ProvisionDb}
use frontkeep.Registry.Samples.{whole}

abbrev listing : SecretStore (List String)
listing = record {
  put = λ s project name value.
      (value ∷ s, ok (record { store = "builtin"; at_path = name; version = 1 }));
}

abbrev making : Provisioner whole
making = record idle_backend {
  run = λ req. ok (record {
    outputs = json (("url", str "http") ∷ ("password", str "hunter2") ∷ []);
    resource_ids = [];
    sensitive_keys = "password" ∷ [];
  });
}

abbrev with_making : Service whole
with_making = record settings { stub = making }

abbrev recorded : Json
recorded = json (
    ("url", str "http")
    ∷ ("password", ref_json (record { store = "builtin"; at_path = "logs-password"; version = 1 }))
    ∷ [])

abbrev made : Provisioned
made = record {
  outputs = json (("url", str "http") ∷ ("password", str "hunter2") ∷ []);
  resource_ids = [];
  sensitive_keys = "password" ∷ [];
}

abbrev no_tables : ProvisionDb whole
no_tables = record { rows = []; workflow = record { requests = []; audit_log = [] }; wired = true }

run_apply-IsRouted_example :
    (p : Provisioned) × ((connector_backend with_making
          (connector_and_config with_making "s3").0).run
        (request_for with_making bucket_row
          (apply_config with_making listing plain no_tables bucket_row)
          (declared_secrets with_making listing plain "s3"))
      ≡ ok p)
    × Puts listing "p1" [] ("hunter2" ∷ [])
    × ((key : String)
        → IsRouted listing plain "p1" "logs" key []
            ("hunter2" ∷ [])
            (contains (declared_secrets with_making listing plain "s3" ++ p.sensitive_keys) key)
            (get_value p.outputs key)
            (get_value recorded key))
unfolding run_apply route_secrets route_keys connector_and_config connector_backend get_service
run_apply-IsRouted_example =
    run_apply-IsRouted with_making listing plain no_tables bucket_row [] ("hunter2" ∷ []) recorded
      refl
