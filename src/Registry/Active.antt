-- ===== src/Registry/Active.antt =====
-- crates/registry/src/lib.rs: the gate `require_active`. The read of a project's registration is an
-- argument: the tables as a function of the project.
use frontkeep.Base.{
  String, Bool, not, ◌||◌, Option, none, some, ◌==◌, if◌then◌else◌, Result, err, ok,
}
use frontkeep.Base.Float.{Float}
use frontkeep.Registry.Records.{Registration}
use frontkeep.Registry.Tiers.{RegistryError, not_registered, inactive}
use frontkeep.Workflow.Engine.{project_id}

module _ {F : Float} where
  abbrev is_live : Registration F → Bool
  is_live r = r.lifecycle == "active" || r.lifecycle == "provisional"

  unfoldable pub require_active :
      (String → Option (Registration F)) → String → Result RegistryError (Registration F)
  require_active registered project_id = elim (registered project_id) [
    | none ↦ err (not_registered project_id)
    | some r ↦
        if not r.registered
        then err (not_registered project_id)
        else if not (is_live r)
        then err (inactive project_id)
        else ok r
  ]
