-- ===== src/Provision/Granted/Tests.antt =====
-- crates/provision: a grant of access at a concrete input.
use frontkeep.Base.{ℕ, String, ◌≡◌, ◌⊎◌, true, Option, some, [], ◌∷◌, err}
use frontkeep.Base.Json.{json, get_str, Json, str}
use frontkeep.Policy.Engine.{deny_with, PolicyEngine}
use frontkeep.Provision.Connectors.{Service}
use frontkeep.Provision.Granted.{request_grant-IsGrantable, IsGrantable}
use frontkeep.Provision.Grants.{request_grant, GrantTerms}
use frontkeep.Provision.Manifest.{ProvisionError}
use frontkeep.Provision.Repo.{ProvisionedRecord}
use frontkeep.Provision.Requests.{request_inner}
use frontkeep.Provision.Samples.{at, bucket_row, service, settings, plain}
use frontkeep.Provision.Worker.{ProvisionDb}
use frontkeep.Registry.Records.{Registration}
use frontkeep.Registry.Samples.{whole, registered_project}

abbrev app_row : ProvisionedRecord whole
app_row = record bucket_row {
  id = "a1";
  rtype = "app";
  name = "web";
  state = "provisioned";
  outputs = json (("role", str "arn:role") ∷ []);
}

abbrev data_row : ProvisionedRecord whole
data_row = record bucket_row {
  state = "provisioned";
  outputs = json (("arn", str "arn:bucket") ∷ []);
}

abbrev granting : Service whole
granting = record settings {
  catalog =
      (
        "app",
        record (service "app") { principal_kind = some "iam-role"; principal_output = some "role" },
      )
      ∷ (
        "s3",
        record (service "s3") {
          grant = some (record { module_path = "aws/grant"; principal_kind = "iam-role" });
          access_levels = ("read", "s3:GetObject" ∷ []) ∷ [];
        },
      )
      ∷ [];
}

abbrev everyone : String → Option (Registration whole)
everyone project = some registered_project

abbrev refusing : PolicyEngine
refusing query = deny_with "not today"

abbrev calm : ℕ → ProvisionDb whole → ProvisionDb whole
calm n db = db

abbrev stocked : ProvisionDb whole
stocked = record {
  rows = app_row ∷ data_row ∷ [];
  workflow = record { requests = []; audit_log = [] };
  wired = true;
}

request_grant-IsGrantable_example :
    ((e : ProvisionError) × (request_grant granting everyone refusing plain
          (at 1)
          (at 1)
          calm
          "p1"
          "a1"
          "b1"
          "read"
          "alice"
          stocked
        ≡ (stocked, err e)))
    ⊎ ((terms : GrantTerms whole) × (name : String) × (spec : Json) × (override : Json)
        × IsGrantable granting "p1" "a1" "b1" "read" stocked.rows terms
        × (request_grant granting everyone refusing plain
              (at 1)
              (at 1)
              calm
              "p1"
              "a1"
              "b1"
              "read"
              "alice"
              stocked
            ≡ request_inner granting everyone refusing plain
                (at 1)
                (at 1)
                calm
                "p1"
                "access-grant"
                name
                spec
                "alice"
                (some override)
                stocked)
        × (get_str override "module" ≡ some terms.grant.module_path))
request_grant-IsGrantable_example =
    request_grant-IsGrantable granting everyone refusing plain (at 1) (at 1) calm "p1" "a1" "b1"
      "read" "alice" stocked
