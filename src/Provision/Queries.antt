-- ===== src/Provision/Queries.antt =====
-- crates/provision/src/repo.rs: the reads of `provisioned_resources` by project, request and name.
use frontkeep.Base.{
  String, Bool, ◌&&◌, ◌||◌, Option, none, some, List, [], ◌∷◌, ◌==◌, if◌then◌else◌, keep, sort,
  newest_first, oldest_first,
}
use frontkeep.Base.Float.{Float}
use frontkeep.Provision.Repo.{is_request, ProvisionedRecord}
use frontkeep.Workflow.Engine.{project_id}

module _ {F : Float} where
  abbrev pub first : List (ProvisionedRecord F) → Option (ProvisionedRecord F)
  first [] = none
  first (row ∷ rows) = some row

  unfoldable pub list_by_project : String → List (ProvisionedRecord F) → List (ProvisionedRecord F)
  list_by_project project_id rows =
      sort (newest_first (λ row. row.created_at)) (keep (λ row. row.project_id == project_id) rows)

  unfoldable pub get_by_request : String → List (ProvisionedRecord F) → Option (ProvisionedRecord F)
  get_by_request request_id rows = first (
      sort (oldest_first (λ row. row.created_at))
        (keep (λ row. is_request request_id row.request_id) rows))

  -- `SUM(est_monthly_usd)` over the rows of a test
  abbrev sum_cost : (ProvisionedRecord F → Bool) → List (ProvisionedRecord F) → F.F64
  sum_cost p [] = F.zero
  sum_cost p (row ∷ rows) =
      let rest = sum_cost p rows in if p row then F.add row.est_monthly_usd rest else rest

  unfoldable pub infra_total_for_project : String → List (ProvisionedRecord F) → F.F64
  infra_total_for_project project_id rows =
      sum_cost (λ row. row.project_id == project_id && row.state == "provisioned") rows

  abbrev pub is_active : ProvisionedRecord F → Bool
  is_active row = row.state == "provisioning" || row.state == "provisioned"

  unfoldable pub infra_committed_for_project : String → List (ProvisionedRecord F) → F.F64
  infra_committed_for_project project_id rows =
      sum_cost (λ row. row.project_id == project_id && is_active row) rows

  unfoldable pub get_active_by_name :
      (project_id rtype name : String) → List (ProvisionedRecord F) → Option (ProvisionedRecord F)
  get_active_by_name project_id rtype name rows = first (
      sort (newest_first (λ row. row.created_at)) (
        keep
          (λ row.
            row.project_id == project_id && row.rtype == rtype && row.name == name && is_active row)
          rows))
