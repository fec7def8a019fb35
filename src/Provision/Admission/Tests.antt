-- ===== src/Provision/Admission/Tests.antt =====
-- crates/provision: a request for a resource at a concrete input.
use frontkeep.Base.{ℕ, String, true, Option, some, [], ◌∷◌}
use frontkeep.Base.Json.{json, Json, str}
use frontkeep.Policy.Engine.{deny_with, PolicyEngine}
use frontkeep.Provision.Worker.{ProvisionDb}
use frontkeep.Registry.Records.{Registration}
use frontkeep.Registry.Samples.{whole, registered_project}

abbrev registrations : String → Option (Registration whole)
registrations project = some (record registered_project { classification = "wide-operational" })

abbrev wary : PolicyEngine
wary query = deny_with "not today"

abbrev quiet : ℕ → ProvisionDb whole → ProvisionDb whole
quiet n db = db

abbrev wanted : Json
wanted = json (("size", str "big") ∷ [])

abbrev nothing_yet : ProvisionDb whole
nothing_yet = record {
  rows = [];
  workflow = record { requests = []; audit_log = [] };
  wired = true;
}
