-- ===== src/Provision/Single.antt =====
-- crates/provision/src/lib.rs: the live resources of a project, a service and a name.
use frontkeep.Base.{
  ◌≤◌, String, ◌≡◌, refl, sym, ap, subst, ◌∙◌, inl, inr, Bool, true, not, ◌&&◌, none, some, List,
  [], ◌∷◌, ◌==◌, eq_iff, arith, Bool-cases, Option-cases, length, keep, length-append, keep-append,
  All, All-keep, keep-All, unwrap_or, All-weaken, update_where, by_key, IsKeyed, unique, All-found,
  sort, length-sort, All-sort, newest_first,
}
use frontkeep.Base.Float.{Float}
use frontkeep.Base.Json.{get_str, Json}
use frontkeep.Provision.Connectors.{Service}
use frontkeep.Provision.Enqueue.{
  spec_of, name_of, new_record_of, enqueue_existing, enqueue_named, enqueue_apply, JsonText,
}
use frontkeep.Provision.Queries.{first, get_by_request, is_active, get_active_by_name}
use frontkeep.Provision.Repo.{
  record_id, find_record, insert_record, update_for_reapply, ProvisionedRecord,
}
use frontkeep.Provision.Worker.{ProvisionDb}
use frontkeep.Registry.Records.{Registration}
use frontkeep.Storage.Env.{Env}
use frontkeep.Workflow.Engine.{WorkflowRequest}

module _ {F : Float} where
  -- A live resource of a name: the condition of `get_active_by_name`.
  abbrev pub at_name : (project rtype name : String) → ProvisionedRecord F → Bool
  at_name project rtype name row =
      row.project_id == project && row.rtype == rtype && row.name == name && is_active row

  unfoldable pub IsSingle : List (ProvisionedRecord F) → Type 0
  IsSingle rows =
      (project rtype name : String) → length (keep (at_name project rtype name) rows) ≤ 1

  first-All :
      (P : ProvisionedRecord F → Type 0) (rows : List (ProvisionedRecord F))
      (row : ProvisionedRecord F)
      → All P rows
      → first rows ≡ some row
      → P row
  first-All P [] row h e = cc
  first-All P (r ∷ rows) row (h, hs) e = subst (λ o. P (unwrap_or o row)) e h

  first-empty : (rows : List (ProvisionedRecord F)) → first rows ≡ none → rows ≡ []
  first-empty [] h = refl
  first-empty (r ∷ rows) h = cc

  -- What `get_active_by_name` finds is a live row of the table, of the name.
  pub active_found :
      (project rtype name : String) (rows : List (ProvisionedRecord F)) (row : ProvisionedRecord F)
      → IsKeyed record_id rows
      → get_active_by_name project rtype name rows ≡ some row
      → (at_name project rtype name row ≡ true) × (find_record row.id rows ≡ some row)
  unfolding get_active_by_name
  active_found project rtype name rows row k h =
      let before = newest_first {A = ProvisionedRecord F} (λ r. r.created_at) in
      let live = keep (at_name project rtype name) rows in
      let P : ProvisionedRecord F → Type 0 = λ r. at_name project rtype name r ≡ true in
      let Q : ProvisionedRecord F → Type 0 = λ r. find_record r.id rows ≡ some r in
      (
        first-All P (sort before live) row
            (All-sort before P live (All-keep P (at_name project rtype name) rows (λ r e. e))) h,
        first-All Q (sort before live) row
            (All-sort before Q live
              (keep-All Q (at_name project rtype name) rows (All-found record_id rows k)))
            h,
      )

  active_absent :
      (project rtype name : String) (rows : List (ProvisionedRecord F))
      → get_active_by_name project rtype name rows ≡ none
      → length (keep (at_name project rtype name) rows) ≡ 0
  unfolding get_active_by_name
  active_absent project rtype name rows h =
      let before = newest_first {A = ProvisionedRecord F} (λ r. r.created_at) in
      let live = keep (at_name project rtype name) rows in
      sym (length-sort before live) ∙ ap length (first-empty (sort before live) h)

  -- An update that leaves alone whether a row is live, and its name.
  length-keep-update :
      (p hit : ProvisionedRecord F → Bool) (f : ProvisionedRecord F → ProvisionedRecord F)
      (rows : List (ProvisionedRecord F))
      → All (λ r. hit r ≡ true → p (f r) ≡ p r) rows
      → length (keep p (update_where hit f rows)) ≡ length (keep p rows)
  length-keep-update p hit f [] h = refl
  length-keep-update p hit f (r ∷ rows) (here, there) = elim (Bool-cases (hit r)) [
    | inl yes_hit ↦ ground (arith, yes_hit, here yes_hit, length-keep-update p hit f rows there)
    | inr no_hit ↦ ground (arith, no_hit, length-keep-update p hit f rows there)
  ]

  pub at_name_sound :
      (project rtype name : String) (row : ProvisionedRecord F)
      → at_name project rtype name row ≡ true
      → (row.project_id ≡ project) × (row.rtype ≡ rtype) × (row.name ≡ name)
  at_name_sound project rtype name row h =
      ground (arith, eq_iff row.project_id project, eq_iff row.rtype rtype, eq_iff row.name name)

  at_name-live :
      (project rtype name : String) (row : ProvisionedRecord F)
      → at_name project rtype name row ≡ true
      → is_active row ≡ true
  at_name-live project rtype name row h = ground arith

  pub insert-IsSingle :
      (rec : ProvisionedRecord F) (rows : List (ProvisionedRecord F))
      → get_active_by_name rec.project_id rec.rtype rec.name rows ≡ none
      → IsSingle rows
      → IsSingle (insert_record rec rows)
  unfolding IsSingle insert_record
  insert-IsSingle rec rows free single project rtype name =
      elim (Bool-cases (at_name project rtype name rec)) [
        | inl here ↦
            let (a, b, c) = at_name_sound project rtype name rec here in
            let none_yet : length (keep (at_name project rtype name) rows) ≡ 0 =
              active_absent project rtype name rows (rw (sym a, sym b, sym c) free) in
            ground (
              arith,
              here,
              none_yet,
              keep-append (at_name project rtype name) rows (record rec { worker_owner = none }),
              length-append (keep (at_name project rtype name) rows)
                  (record rec { worker_owner = none } ∷ []),
            )
        | inr other ↦ ground (
          arith,
          other,
          keep-append (at_name project rtype name) rows (record rec { worker_owner = none }),
          single project rtype name,
        )
      ]

  reapply-IsSingle :
      (env : Env) (spec : Json) (est : F.F64) (request_id : String) (existing : ProvisionedRecord F)
      (rows : List (ProvisionedRecord F))
      → IsKeyed record_id rows
      → find_record existing.id rows ≡ some existing
      → is_active existing ≡ true
      → IsSingle rows
      → IsSingle (update_for_reapply env existing.id spec est request_id rows)
  unfolding IsSingle update_for_reapply
  reapply-IsSingle env spec est request_id existing rows k found live single project rtype name =
      let still_live : (r : ProvisionedRecord F)
          → r ≡ existing
          → at_name project rtype name (record r { state = "provisioning" })
            ≡ at_name project rtype name r =
        λ r e.
          subst
            (λ x.
              at_name project rtype name (record x { state = "provisioning" })
              ≡ at_name project rtype name x)
            (sym e) (rw live refl) in
      subst (λ n. n ≤ 1)
        (sym (
          length-keep-update (at_name project rtype name) (by_key record_id existing.id) _ rows (
            All-weaken (λ r. r.id ≡ existing.id → r ≡ existing) _ rows
              (λ r one hit. still_live r (one (ground (arith, hit, eq_iff r.id existing.id))))
              (unique record_id existing.id existing rows k found))))
        (single project rtype name)

module _ {F : Float} (svc : Service F) (text : JsonText) where
  enqueue_existing-IsSingle :
      (env : Env) (req : WorkflowRequest) (rtype : String) (existing : ProvisionedRecord F)
      (db : ProvisionDb F)
      → IsKeyed record_id db.rows
      → find_record existing.id db.rows ≡ some existing
      → is_active existing ≡ true
      → IsSingle db.rows
      → IsSingle (enqueue_existing svc text env req rtype existing db).0.rows
  enqueue_existing-IsSingle env req rtype existing db k found live single =
      elim (Bool-cases
        (existing.state == "provisioned" && not (text.same existing.spec (spec_of svc text req)))) [
          | inl changed ↦
              rw (changed, enqueue_existing)
                (reapply-IsSingle env _ _ req.id existing db.rows k found live single)
          | inr settled ↦ rw (settled, enqueue_existing) single
        ]

  enqueue_named-IsSingle :
      (env : Env) (reg : Registration F) (req : WorkflowRequest) (rtype : String)
      (db : ProvisionDb F)
      → IsKeyed record_id db.rows
      → IsSingle db.rows
      → IsSingle (enqueue_named svc text env reg req rtype db).0.rows
  enqueue_named-IsSingle env reg req rtype db k single =
      elim (Option-cases (get_active_by_name reg.project_id rtype (name_of svc text req) db.rows)) [
        | inl free ↦
            rw (enqueue_named, free)
              (insert-IsSingle (new_record_of svc text env reg req rtype) db.rows free single)
        | inr (existing, there) ↦
            let (here, found) =
              active_found reg.project_id rtype (name_of svc text req) db.rows existing k there in
            rw (enqueue_named, there)
              (enqueue_existing-IsSingle env req rtype existing db k found
                (at_name-live reg.project_id rtype (name_of svc text req) existing here) single)
      ]

  -- Enqueueing an approved request keeps the table free of two live resources of one project,
  -- service and name, in a table without two rows of an id.
  pub enqueue_apply-IsSingle :
      (env : Env) (reg : Registration F) (req : WorkflowRequest) (db : ProvisionDb F)
      → IsKeyed record_id db.rows
      → IsSingle db.rows
      → IsSingle (enqueue_apply svc text env reg req db).0.rows
  unfolding enqueue_apply
  enqueue_apply-IsSingle env reg req db k single =
      elim (Option-cases (get_by_request req.id db.rows)) [
        | inr (known, found) ↦ rw (found, enqueue_apply) single
        | inl new ↦ elim (Option-cases (get_str req.payload "resource_type")) [
          | inl untyped ↦ rw (new, untyped, enqueue_apply) single
          | inr (rtype, typed) ↦
              rw (new, typed, enqueue_apply) (enqueue_named-IsSingle env reg req rtype db k single)
        ]
      ]
