-- ===== src/Provision/Resumed/Tests.antt =====
-- crates/provision: a project's resources, suspended, resumed and destroyed.
-- A connector that stops and resumes whatever it is asked to.
use mathlib.Core.Option
use frontkeep.Base.{String, ◌≡◌, refl, true, false, some, List, [], ◌∷◌, err, ok}
use frontkeep.Provision.Cascades.{suspend_project, resume_project, destroy_project_resources}
use frontkeep.Provision.Connectors.{
  connector_backend, connector_and_config, backend_and_req, Provisioner, Service,
}
use frontkeep.Provision.Manifest.{ProvisionError, conflict}
use frontkeep.Provision.Repo.{find_record, ProvisionedRecord}
use frontkeep.Provision.Resumed.{untimed, resume_project-suspend_project}
use frontkeep.Provision.Samples.{at, bucket_row}
use frontkeep.Provision.ServiceCatalog.{get_service}
use frontkeep.Provision.Suspended.{destroy_project_resources_lem}
use frontkeep.Registry.Samples.{whole}

abbrev obliging : Provisioner whole
obliging = record {
  name = "opentofu";
  dry_run = false;
  supports = λ rtype. true;
  run = λ req. err (conflict "busy");
  tear_down = λ req outputs. ok tt;
  stop = λ req outputs. ok true;
  resume = λ req outputs. ok true;
}

abbrev svc : Service whole
svc = record {
  catalog = [];
  backends = [];
  stub = obliging;
  allowed = [];
  default_cloud = "aws";
  default_account = "main";
  ceilings = [];
  instance_id = "w1";
  max_retries = 3;
  wait_budget = 4;
}

abbrev error_text : ProvisionError → String
error_text e = "failed"

abbrev live : List (ProvisionedRecord whole)
live =
    record bucket_row { state = "provisioned" }
    ∷ record bucket_row { id = "b2"; state = "linked" }
    ∷ []

destroy_project_resources_lem_example :
    find_record "b2" (destroy_project_resources svc error_text (at 50) "p1" live).0
    ≡ some (record bucket_row { id = "b2"; state = "destroyed"; updated_at = 50 })
destroy_project_resources_lem_example =
    destroy_project_resources_lem svc error_text (at 50) "p1" live "b2" (refl, (refl, tt))

resume_project-suspend_project_example :
    Option.map untimed (
      find_record "b1"
        (resume_project svc error_text
          (at 90)
          "p1"
          (suspend_project svc error_text (at 50) "p1" live).0).0)
    ≡ some (record bucket_row { state = "provisioned"; updated_at = 0 })
unfolding backend_and_req connector_backend connector_and_config get_service
resume_project-suspend_project_example =
    resume_project-suspend_project svc error_text (at 50) (at 90) "p1" live "b1" (λ rec. refl)
      (refl, (refl, tt)) refl
