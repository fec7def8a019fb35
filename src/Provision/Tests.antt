-- ===== src/Provision/Tests.antt =====
-- crates/provision: the worker at concrete inputs.
use frontkeep.Base.{
  ℕ, ◌≤◌, String, ◌≡◌, refl, true, false, not, ◌&&◌, Option, none, some, List, [], ◌∷◌, arith, leb,
  is_some, or_else, Result, err, ok, pos, negsuc,
}
use frontkeep.Base.Json.{json, str}
use frontkeep.Catalog.Refs.{path}
use frontkeep.Provision.Claims.{run, run-claim_excluded, WorkerCall, claims, beats}
use frontkeep.Provision.Manifest.{
  resolve, class_rank, tier_violation, validate, ServiceManifest, ProvisionError,
}
use frontkeep.Provision.Offered.{
  IsStocked, overlay_files, last_of, load_lem, rank_or, floor_of, tier_violation-resolve,
}
use frontkeep.Provision.Repo.{find_record, claim}
use frontkeep.Provision.Retries.{driven, drive_core_lem, backoff_secs_lem}
use frontkeep.Provision.Samples.{at, bucket_row, stored_rows, service, policy_settings}
use frontkeep.Provision.ServiceCatalog.{
  ServiceCatalog, collect_manifests, get_service, bundle, parse_manifest, add_file, add_files,
  embedded, overlay_dir, load, file, Trees, no_trees, tree,
}
use frontkeep.Provision.Worker.{
  backoff_secs, stale_cutoff, Connector, drive_core, RetryPolicy, apply, ProvisionDb,
}
use frontkeep.Registry.Samples.{whole}

abbrev rivals : List WorkerCall
rivals = claims (at 1_200_000) "b1" "provisioning" "w2" ∷ beats (at 1_300_000) "b1" "w1" ∷ []

run-claim_excluded_example :
    (claim
      (at 1_400_000)
      "b1"
      "provisioning"
      "w3"
      (stale_cutoff (at 1_400_000))
      (run (claim (at 1_000_000) "b1" "provisioning" "w1" 100_000 stored_rows).0 rivals)).1
    ≡ false
unfolding claim
run-claim_excluded_example =
    run-claim_excluded (at 1_000_000) "b1" "provisioning" "w1" 100_000 stored_rows rivals
      (at 1_400_000) "provisioning" "w3" (refl, tt) refl (refl, (refl, tt)) (omega arith)

-- A connector that has no credentials.
abbrev unauthorised : Connector whole
unauthorised action rec = err "denied"

abbrev tables : ProvisionDb whole
tables = record {
  rows = stored_rows;
  workflow = record { requests = []; audit_log = [] };
  wired = false;
}

drive_core_lem_example :
    find_record "b1"
      (drive_core (at 1_000_000) "w1" unauthorised (λ rtype. policy_settings) "b1" tables).0.rows
    ≡ some (driven (at 1_000_000) policy_settings apply bucket_row (err "denied"))
drive_core_lem_example =
    drive_core_lem (at 1_000_000) "w1" unauthorised (λ rtype. policy_settings) "b1" tables
      bucket_row apply "b1" (refl, tt) refl refl

backoff_secs_lem_example :
    (secs : ℕ) × (later : ℕ) × (backoff_secs 3 policy_settings ≡ pos secs)
    × (backoff_secs 4 policy_settings ≡ pos later)
    × (secs ≤ 60)
    × (secs ≤ later)
    × (backoff_secs 1 policy_settings ≡ pos 10)
backoff_secs_lem_example = backoff_secs_lem 3 policy_settings (omega arith)

-- The cap of this policy does not fit.
abbrev no_cap : RetryPolicy
no_cap = record {
  max_attempts = 3;
  base_secs = 4_611_686_018_427_387_904;
  cap_secs = 18_446_744_073_709_551_615;
}

wrapped : backoff_secs 2 no_cap ≡ negsuc 9_223_372_036_854_775_807
unfolding backoff_secs
wrapped = refl

-- The bytes of a manifest are its id.
abbrev from_yaml : String → String → Result ProvisionError (ServiceManifest whole)
from_yaml path bytes = ok (service bytes)

abbrev bundled_files : List (String × Option String)
bundled_files = ("s3/service.yaml", some "s3") ∷ ("s3/readme.md", some "") ∷ []

abbrev overlay : Option (String × Trees)
overlay = some ("/etc", tree (file "service.yaml" (ok "queue")) no_trees)

abbrev offered : ServiceCatalog whole
offered = ("s3", service "s3") ∷ ("queue", service "queue") ∷ []

load_lem_example :
    ((id : String)
      → get_service id offered
        ≡ or_else
            (last_of from_yaml id (overlay_files overlay))
            (last_of from_yaml id (bundle bundled_files)))
    × IsStocked offered
unfolding load embedded overlay_dir add_files add_file parse_manifest validate collect_manifests
load_lem_example = load_lem from_yaml bundled_files overlay offered refl

tier_violation-resolve_example :
    let odd = json (("size", str "odd") ∷ []) in
    (is_some (tier_violation (service "s3") "poc" (resolve (service "s3") odd))
      ≡ not (
          leb (rank_or (floor_of (service "s3") odd) 0) (class_rank "poc")
          && leb (class_rank "poc") (rank_or none 3)))
    × ((resolve (service "s3") odd).force_review ≡ true)
tier_violation-resolve_example =
    tier_violation-resolve (service "s3") (json (("size", str "odd") ∷ [])) "poc"
