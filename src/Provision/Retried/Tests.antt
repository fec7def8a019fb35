-- ===== src/Provision/Retried/Tests.antt =====
-- crates/provision: retries at a concrete input, of a service that allows three attempts.
use frontkeep.Base.{◌≤◌, String, ◌≡◌, refl, true, false, List, [], ◌∷◌, arith, length}
use frontkeep.Provision.Repo.{claim, mark_failed}
use frontkeep.Provision.Retried.{is_swept, fail_once, fail_runs, retried_lem}
use frontkeep.Provision.Samples.{at, bucket_row, stored_rows, policy_settings}
use frontkeep.Provision.Worker.{conclude, drive_core, apply, ProvisionDb}
use frontkeep.Registry.Samples.{whole}
use frontkeep.Storage.Env.{Env}

abbrev tables : ProvisionDb whole
tables = record {
  rows = stored_rows;
  workflow = record { requests = []; audit_log = [] };
  wired = false;
}

abbrev failures : List (Env × String)
failures = (at 1_000_000, "denied") ∷ []

fits :
    length
      (fail_once "w1"
        (λ rtype. policy_settings)
        "b1"
        (at 2_000_000)
        "denied"
        (fail_runs "w1" (λ rtype. policy_settings) "b1" failures tables)).rows
    ≤ 50
unfolding drive_core conclude claim mark_failed
fits = omega arith

retried_lem_example :
    is_swept "b1" 2_020_000 0 50
      (fail_once "w1"
        (λ rtype. policy_settings)
        "b1"
        (at 2_000_000)
        "denied"
        (fail_runs "w1" (λ rtype. policy_settings) "b1" failures tables)).rows
    ≡ true
retried_lem_example =
    retried_lem "w1" (λ rtype. policy_settings) "b1" bucket_row apply failures (at 2_000_000)
      "denied" tables 2_020_000 0 50 (refl, tt) refl refl refl refl (omega arith) (omega arith) fits
