-- ===== src/Provision/Samples.antt =====
-- crates/provision: data for the tests.
use frontkeep.Base.{ℕ, String, true, false, none, some, List, [], ◌∷◌, err, ok}
use frontkeep.Base.Json.{null}
use frontkeep.Provision.Connectors.{Provisioner, Service}
use frontkeep.Provision.Enqueue.{JsonText}
use frontkeep.Provision.Manifest.{ServiceManifest, conflict}
use frontkeep.Provision.Repo.{ProvisionedRecord}
use frontkeep.Provision.Worker.{RetryPolicy}
use frontkeep.Registry.Samples.{whole}
use frontkeep.Storage.Env.{Env}

abbrev pub at : ℕ → Env
at now = record { now = now; uid = "u1"; audit_uid = "audit" }

abbrev pub bucket_row : ProvisionedRecord whole
bucket_row = record {
  id = "b1";
  project_id = "p1";
  rtype = "s3";
  name = "logs";
  spec = null;
  outputs = null;
  tags = [];
  est_monthly_usd = 3;
  state = "provisioning";
  backend = "opentofu";
  dry_run = false;
  request_id = none;
  created_at = 1;
  updated_at = 1;
  last_error = "";
  attempts = 0;
  next_retry_at = none;
  worker_owner = none;
}

abbrev pub stored_rows : List (ProvisionedRecord whole)
stored_rows = bucket_row ∷ []

abbrev pub service : String → ServiceManifest whole
service id = record {
  id = id;
  name = "Bucket";
  category = "storage";
  status = "live";
  classification_min = some "light-operational";
  classification_max = none;
  description = "";
  auto_approvable = true;
  required_fields = "size" ∷ [];
  secret_outputs = [];
  provisioner = record { connector = "terraform"; config = null };
  cost = record { model = "usage"; estimated_monthly_usd = 5; source_type = "none" };
  tags = [];
  documentation = none;
  inference = none;
  variants = some (record {
    field = "size";
    options =
        (
          "big",
          record {
            estimated_monthly_usd = some 90;
            classification_min = some "wide-operational";
            requires_approval = true;
          },
        )
        ∷ [];
  });
  access_levels = [];
  grant = none;
  principal_output = none;
  principal_kind = none;
  long_running = false;
  retry = none;
}

abbrev pub idle_backend : Provisioner whole
idle_backend = record {
  name = "stub";
  dry_run = true;
  supports = λ rtype. true;
  run = λ req. err (conflict "busy");
  tear_down = λ req outputs. ok tt;
  stop = λ req outputs. ok false;
  resume = λ req outputs. ok false;
}

abbrev pub settings : Service whole
settings = record {
  catalog = ("s3", service "s3") ∷ [];
  backends = [];
  stub = idle_backend;
  allowed = record { cloud = "aws"; account = "main" } ∷ [];
  default_cloud = "aws";
  default_account = "main";
  ceilings = ("light-operational", 100) ∷ [];
  instance_id = "w1";
  max_retries = 3;
  wait_budget = 4;
}

abbrev pub plain : JsonText
plain = record { to_string = λ v. "{}"; from_str = λ s. none; same = λ v w. false }

abbrev pub policy_settings : RetryPolicy
policy_settings = record { max_attempts = 3; base_secs = 10; cap_secs = 60 }
