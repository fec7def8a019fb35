-- ===== src/Provision/Cascaded.antt =====
-- crates/provision/src/lib.rs: passes over the resources of a project, and the states they lead to.
use mathlib.Core.Option
use frontkeep.Base.{
  String, ◌≡◌, refl, ap, inl, inr, Bool, true, ◌&&◌, Option, none, some, List, [], ◌∷◌, ◌==◌,
  eq_iff, eq_refl, arith, if◌then◌else◌, Bool-cases, Option-cases, any, keep, All, keep-All,
  any-keep, Result, err, ok, IsKeyed, row_of-update, update_where-IsKeyed, any-keyed, unique,
  any-sort, All-sort, newest_first,
}
use frontkeep.Base.Float.{Float}
use frontkeep.Provision.Cascades.{Cascade, each, stop_of, resume_of, destroy_of, LifecycleSummary}
use frontkeep.Provision.Claims.{step}
use frontkeep.Provision.Connectors.{Service}
use frontkeep.Provision.Manifest.{ProvisionError}
use frontkeep.Provision.Queries.{first, list_by_project}
use frontkeep.Provision.Repo.{record_id, find_record, mark_state, ProvisionedRecord}
use frontkeep.Storage.Env.{Env}
use frontkeep.Workflow.Engine.{project_id}

module _ {F : Float} (env : Env) where
  -- A record put into a state.
  abbrev pub marked : String → ProvisionedRecord F → ProvisionedRecord F
  marked state row = record row { state = state; updated_at = env.now }

  pub mark_state-find :
      (id state other : String) (rows : List (ProvisionedRecord F))
      → find_record other (mark_state env id state rows) ≡ (
          if other == id
          then Option.map (marked state) (find_record id rows)
          else find_record other rows)
  unfolding mark_state
  mark_state-find id state other rows =
      row_of-update record_id (marked state) id other rows (λ row. refl)

  marked-again :
      (state : String) (o : Option (ProvisionedRecord F))
      → Option.map (marked state) (Option.map (marked state) o) ≡ Option.map (marked state) o
  marked-again state none = refl
  marked-again state (some row) = refl

-- A pass whose step puts the records that it acts on into a state, and leaves all others.
module _ {F : Float} (env : Env) (step : Cascade F → ProvisionedRecord F → Cascade F)
    (acts : ProvisionedRecord F → Bool) (final : ProvisionedRecord F → String)
    (steps : (c : Cascade F) (rec : ProvisionedRecord F) (id : String)
      → find_record id (step c rec).0 ≡ (
          if rec.id == id && acts rec
          then Option.map (marked env (final rec)) (find_record id c.0)
          else find_record id c.0)) where
  each-absent :
      (c : Cascade F) (recs : List (ProvisionedRecord F)) (id : String)
      → find_record id c.0 ≡ none
      → find_record id (each step c recs).0 ≡ none
  each-absent c [] id h = h
  each-absent c (rec ∷ recs) id h =
      each-absent (step c rec) recs id (ground (arith, steps c rec id, h))

  each-find :
      (c : Cascade F) (recs : List (ProvisionedRecord F)) (id : String) (r : ProvisionedRecord F)
      → All (λ rec. rec.id ≡ id → rec ≡ r) recs
      → find_record id (each step c recs).0 ≡ (
          if any (λ rec. rec.id == id && acts rec) recs
          then Option.map (marked env (final r)) (find_record id c.0)
          else find_record id c.0)
  each-find c [] id r same = refl
  each-find c (rec ∷ recs) id r (here, there) = elim (Bool-cases (rec.id == id && acts rec)) [
    | inl hit ↦
        let e : final rec ≡ final r = ap final (here (ground (arith, hit, eq_iff rec.id id))) in
        ground (
          arith,
          hit,
          e,
          each-find (step c rec) recs id r there,
          steps c rec id,
          marked-again env (final r) (find_record id c.0),
        )
    | inr miss ↦ ground (arith, miss, each-find (step c rec) recs id r there, steps c rec id)
  ]

  -- Over the records of a project.
  pub each-project :
      (project_id : String) (rows : List (ProvisionedRecord F)) (sum : LifecycleSummary)
      (id : String)
      → IsKeyed record_id rows
      → find_record id (each step (rows, sum) (list_by_project project_id rows)).0
        ≡ Option.map
            (λ row.
              if row.project_id == project_id && acts row then marked env (final row) row else row)
            (find_record id rows)
  unfolding list_by_project
  each-project project_id rows sum id k = elim (Option-cases (find_record id rows)) [
    | inl missing ↦
        ground
          (arith, missing, each-absent (rows, sum) (list_by_project project_id rows) id missing)
    | inr (r, found) ↦
        let mine : ProvisionedRecord F → Bool = λ row. row.project_id == project_id in
        let before = newest_first {A = ProvisionedRecord F} (λ row. row.created_at) in
        let same =
          All-sort before (λ rec. rec.id ≡ id → rec ≡ r) (keep mine rows)
            (keep-All (λ rec. rec.id ≡ id → rec ≡ r) mine rows
              (unique record_id id r rows k found)) in
        ground (
          arith,
          found,
          each-find (rows, sum) (list_by_project project_id rows) id r same,
          any-sort before (λ rec. rec.id == id && acts rec) (keep mine rows),
          any-keep (λ rec. rec.id == id && acts rec) mine rows,
          any-keyed record_id (λ rec. mine rec && acts rec) id rows k,
        )
  ]

-- The state that an answer of the connector leads to.
abbrev pub suspended_state : Result ProvisionError Bool → String
suspended_state (ok true) = "suspended"
suspended_state _ = "provisioned"

abbrev pub resumed_state : Result ProvisionError Bool → String
resumed_state (ok b) = "provisioned"
resumed_state (err e) = "suspended"

abbrev pub destroyed_state : String → Result ProvisionError (Unit {0}) → String
destroyed_state state (ok u) = "destroyed"
destroyed_state state (err e) = state

module _ {F : Float} (svc : Service F) where
  abbrev pub when_suspended : ProvisionedRecord F → String
  when_suspended rec = suspended_state (stop_of svc rec)

  abbrev pub when_resumed : ProvisionedRecord F → String
  when_resumed rec = resumed_state (resume_of svc rec)

  -- A linked record is only unlinked.
  abbrev pub when_destroyed : ProvisionedRecord F → String
  when_destroyed rec =
      if rec.state == "linked" then "destroyed" else destroyed_state rec.state (destroy_of svc rec)

module _ {F : Float} (env : Env) where
  pub mark_state-IsKeyed :
      (id state : String) (rows : List (ProvisionedRecord F))
      → IsKeyed record_id rows
      → IsKeyed record_id (mark_state env id state rows)
  unfolding mark_state
  mark_state-IsKeyed id state rows k = update_where-IsKeyed record_id _ _ rows (λ row. refl) k

  pub each-IsKeyed :
      (step : Cascade F → ProvisionedRecord F → Cascade F)
      → ((c : Cascade F) (rec : ProvisionedRecord F)
          → IsKeyed record_id c.0
          → IsKeyed record_id (step c rec).0)
      → (c : Cascade F) (recs : List (ProvisionedRecord F)) → IsKeyed record_id c.0
      → IsKeyed record_id (each step c recs).0
  each-IsKeyed step keeps c [] k = k
  each-IsKeyed step keeps c (rec ∷ recs) k =
      each-IsKeyed step keeps (step c rec) recs (keeps c rec k)

  -- Two marks are the second.
  pub mark_twice :
      (id first second other : String) (rows : List (ProvisionedRecord F))
      → find_record other (mark_state env id second (mark_state env id first rows)) ≡ (
          if other == id
          then Option.map (marked env second) (find_record id rows)
          else find_record other rows)
  mark_twice id first second other rows = elim (Option-cases (find_record id rows)) [
    | inl missing ↦ ground (
      arith,
      missing,
      mark_state-find env id second other (mark_state env id first rows),
      mark_state-find env id first other rows,
      mark_state-find env id first id rows,
    )
    | inr (row, found) ↦ ground (
      arith,
      found,
      eq_refl id,
      mark_state-find env id second other (mark_state env id first rows),
      mark_state-find env id first other rows,
      mark_state-find env id first id rows,
    )
  ]
