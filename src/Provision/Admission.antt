-- ===== src/Provision/Admission.antt =====
-- crates/provision/src/lib.rs: which requests for a resource are taken up.
mod Tests
use frontkeep.Base.{ℕ, String, ◌≡◌, true, false, Option, none, some, List, Result, ok}
use frontkeep.Base.Float.{Float}
use frontkeep.Base.Json.{Json}
use frontkeep.Catalog.Stored.{stored}
use frontkeep.Provision.Connectors.{ceiling, budget_for, Service}
use frontkeep.Provision.Enqueue.{enqueue_and_wait, JsonText, RequestOutcome}
use frontkeep.Provision.Manifest.{resolve, ServiceManifest, ProvisionError}
use frontkeep.Provision.Queries.{infra_committed_for_project, get_active_by_name}
use frontkeep.Provision.Repo.{ProvisionedRecord}
use frontkeep.Provision.Requests.{request, est_of}
use frontkeep.Provision.Worker.{ProvisionDb}
use frontkeep.Registry.Members.{add}
use frontkeep.Registry.Records.{Registration}
use frontkeep.Storage.Env.{Env}
use frontkeep.Workflow.Engine.{WorkflowRequest, WorkflowDb}
use frontkeep.Workflow.State.{State, requested, approved}

module _ {F : Float} (svc : Service F) (registered : String → Option (Registration F)) where
  -- The conditions under which a request asks for approval by itself.
  abbrev pub IsSelfService :
      (project resource_type name : String)
      → Json
      → Registration F
      → ServiceManifest F
      → List (ProvisionedRecord F)
      → Type 0
  IsSelfService project resource_type name spec reg m rows =
      (m.auto_approvable ≡ true)
      × ((resolve m spec).force_review ≡ false)
      × ((most : F.F64) × (ceiling svc reg.classification ≡ some most)
          × (F.le
                (F.sub
                  (F.add (F.add reg.spent_usd (infra_committed_for_project project rows))
                    (resolve m spec).estimated_monthly_usd)
                  (est_of (get_active_by_name project resource_type name rows)))
                most
              ≡ true))

  -- What a submitted request comes to.
  abbrev pub answered :
      (text : JsonText) (env_rec : Env) (others : ℕ → ProvisionDb F → ProvisionDb F)
      (reg : Registration F) (m : ServiceManifest F) (stored : WorkflowDb × WorkflowRequest)
      (db : ProvisionDb F)
      → ProvisionDb F × Result ProvisionError (RequestOutcome F)
  answered text env_rec others reg m stored db = elim stored.1.state [
    | approved ↦
        enqueue_and_wait svc text env_rec others reg stored.1 (budget_for svc (some m))
          (record db { workflow = stored.0 })
    | requested ↦ (
      record db { workflow = stored.0 },
      ok (record { request = stored.1; provisioned = none; pending_approval = true }),
    )
    | _ ↦ (
      record db { workflow = stored.0 },
      ok (record { request = stored.1; provisioned = none; pending_approval = false }),
    )
  ]
