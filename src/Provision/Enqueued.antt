-- ===== src/Provision/Enqueued.antt =====
-- crates/provision/src/lib.rs: what enqueueing an approved request does to the table.
use frontkeep.Base.{
  String, ◌≡◌, refl, sym, ap, subst, ◌∙◌, inl, inr, Bool, true, false, not, ◌&&◌, Option, none,
  some, [], ◌∷◌, ◌==◌, eq_iff, eq_refl, arith, if◌then◌else◌, Bool-cases, Option-cases, unwrap_or,
  or_else, find?-append, by_key, IsKeyed, row_of-update,
}
use frontkeep.Base.Float.{Float}
use frontkeep.Base.Json.{json, get_str, Json}
use frontkeep.Provision.Connectors.{Service}
use frontkeep.Provision.Enqueue.{
  spec_of, name_of, estimate, new_record_of, reapplied, enqueue_existing, enqueue_named,
  enqueue_apply, JsonText,
}
use frontkeep.Provision.Queries.{get_by_request, get_active_by_name}
use frontkeep.Provision.Repo.{
  record_id, find_record, insert_record, update_for_reapply, ProvisionedRecord,
}
use frontkeep.Provision.Single.{IsSingle, active_found, at_name_sound, enqueue_apply-IsSingle}
use frontkeep.Provision.Worker.{ProvisionDb}
use frontkeep.Registry.Records.{Registration}
use frontkeep.Storage.Env.{Env}
use frontkeep.Workflow.Engine.{WorkflowRequest}
use frontkeep.Workflow.Transitions.{after}

-- The specification that a request carries: its text read as JSON, or an empty object.
module _ (text : JsonText) where
  abbrev pub wanted_spec : WorkflowRequest → Json
  wanted_spec req = elim (get_str req.payload "spec_json") [
    | none ↦ json []
    | some s ↦ unwrap_or (text.from_str s) (json [])
  ]

module _ {F : Float} (svc : Service F) (text : JsonText) (env : Env) (reg : Registration F)
    (req : WorkflowRequest) where
  -- A row that the request is applied to again.
  abbrev pub again : (rtype : String) → ProvisionedRecord F → ProvisionedRecord F
  again rtype row = record row {
    spec = wanted_spec text req;
    est_monthly_usd = estimate svc text rtype (wanted_spec text req) row.est_monthly_usd;
    request_id = some req.id;
    state = "provisioning";
    last_error = "";
    attempts = 0;
    next_retry_at = none;
    worker_owner = none;
    updated_at = env.now;
  }

  -- A row for the request, to be worked on.
  pub record IsOrdered (row : ProvisionedRecord F) : Type 0 where
    pub typed : get_str req.payload "resource_type" ≡ some row.rtype
    pub owned : row.project_id ≡ reg.project_id
    pub named : row.name ≡ name_of svc text req
    pub wanted : row.spec ≡ wanted_spec text req
    pub waiting : row.state ≡ "provisioning"
    pub requested_by : row.request_id ≡ some req.id
    pub unowned : row.worker_owner ≡ none

  -- Whether the request is to be applied to the row of an id again: no row is there for the request
  -- yet, and the row is the live one of the name, is provisioned, and has another specification.
  abbrev pub is_update : ProvisionDb F → String → Bool
  is_update db id = elim (get_by_request req.id db.rows) [
    | some known ↦ false
    | none ↦ elim (get_str req.payload "resource_type") [
      | none ↦ false
      | some rtype ↦ elim (get_active_by_name reg.project_id rtype (name_of svc text req) db.rows) [
        | none ↦ false
        | some live ↦
            (live.state == "provisioned" && not (text.same live.spec (wanted_spec text req)))
            && live.id == id
      ]
    ]
  ]

  -- Whether an id is that of a new row: there is no row for the request and no live one of the name.
  abbrev pub is_insert : ProvisionDb F → String → Bool
  is_insert db id = elim (get_by_request req.id db.rows) [
    | some known ↦ false
    | none ↦ elim (get_str req.payload "resource_type") [
      | none ↦ false
      | some rtype ↦ elim (get_active_by_name reg.project_id rtype (name_of svc text req) db.rows) [
        | none ↦ env.uid == id
        | some live ↦ false
      ]
    ]
  ]

  -- What an id has before and after, by whether it is to be updated and inserted.
  pub IsEnqueued :
      Bool → Bool → Option (ProvisionedRecord F) → Option (ProvisionedRecord F) → Type 0
  IsEnqueued updated false none after = after ≡ none
  IsEnqueued updated true none after =
      (row : ProvisionedRecord F) × (after ≡ some row) × IsOrdered row
  IsEnqueued false inserted (some row) after = after ≡ some row
  IsEnqueued true inserted (some row) after =
      (after ≡ some (again row.rtype row))
      × IsOrdered (again row.rtype row)
      × (row.state ≡ "provisioned")

  kept_row : (o : Option (ProvisionedRecord F)) → IsEnqueued false false o o
  unfolding IsEnqueued
  kept_row none = refl
  kept_row (some row) = refl

  inserted_row :
      (o : Option (ProvisionedRecord F)) (here : Bool) (row : ProvisionedRecord F)
      → IsOrdered row
      → IsEnqueued false here o (or_else o (if here then some row else none))
  unfolding IsEnqueued
  inserted_row none true row h = (row, refl, h)
  inserted_row none false row h = refl
  inserted_row (some old) here row h = refl

  reapplied_row :
      (existing : ProvisionedRecord F) (db : ProvisionDb F) (id : String)
      → find_record existing.id db.rows ≡ some existing
      → IsOrdered (again existing.rtype existing)
      → existing.state ≡ "provisioned"
      → IsEnqueued
          (existing.id == id)
          false
          (find_record id db.rows)
          (find_record id (reapplied svc text env req existing.rtype existing db).0.rows)
  unfolding IsEnqueued update_for_reapply
  reapplied_row existing db id found ordered live =
      let write : ProvisionedRecord F → ProvisionedRecord F = λ row. record row {
        spec = wanted_spec text req;
        est_monthly_usd =
            estimate svc text existing.rtype (wanted_spec text req) existing.est_monthly_usd;
        request_id = some req.id;
        state = "provisioning";
        last_error = "";
        attempts = 0;
        next_retry_at = none;
        worker_owner = none;
        updated_at = env.now;
      } in
      let after = row_of-update record_id write existing.id id db.rows (λ row. refl) in
      elim (Bool-cases (existing.id == id)) [
        | inl same ↦
            let here : id ≡ existing.id = ground (arith, same, eq_iff existing.id id) in
            rw (after, here, found, eq_refl existing.id) (refl, ordered, live)
        | inr other ↦
            let apart : (id == existing.id) ≡ false =
              ground (arith, other, eq_iff existing.id id, eq_iff id existing.id) in
            rw (after, other, apart) (kept_row (find_record id db.rows))
      ]

  enqueue_existing-IsEnqueued :
      (existing : ProvisionedRecord F) (db : ProvisionDb F) (id : String)
      → find_record existing.id db.rows ≡ some existing
      → IsOrdered (again existing.rtype existing)
      → IsEnqueued
          ((existing.state == "provisioned" && not (text.same existing.spec (wanted_spec text req)))
            && existing.id == id)
          false
          (find_record id db.rows)
          (find_record id (enqueue_existing svc text env req existing.rtype existing db).0.rows)
  enqueue_existing-IsEnqueued existing db id found ordered =
      elim (Bool-cases
        (existing.state == "provisioned" && not (text.same existing.spec (spec_of svc text req)))) [
          | inl changed ↦
              rw (changed, enqueue_existing)
                (reapplied_row existing db id found ordered
                  (ground (arith, changed, eq_iff existing.state "provisioned")))
          | inr settled ↦ rw (settled, enqueue_existing) (kept_row (find_record id db.rows))
        ]

  enqueue_named-IsEnqueued :
      (rtype : String) (db : ProvisionDb F) (id : String)
      → get_str req.payload "resource_type" ≡ some rtype
      → IsKeyed record_id db.rows
      → get_by_request req.id db.rows ≡ none
      → IsEnqueued
          (is_update db id)
          (is_insert db id)
          (find_record id db.rows)
          (find_record id (enqueue_named svc text env reg req rtype db).0.rows)
  unfolding insert_record
  enqueue_named-IsEnqueued rtype db id typed k new =
      elim (Option-cases (get_active_by_name reg.project_id rtype (name_of svc text req) db.rows)) [
        | inl free ↦
            let rec = new_record_of svc text env reg req rtype in
            let ordered : IsOrdered rec = record {
              typed = typed;
              owned = refl;
              named = refl;
              wanted = refl;
              waiting = refl;
              requested_by = refl;
              unowned = refl;
            } in
            rw
              (
                enqueue_named,
                is_update,
                is_insert,
                new,
                typed,
                free,
                find?-append (by_key record_id id) db.rows (rec ∷ []),
              )
              (inserted_row (find_record id db.rows) (by_key record_id id rec) rec ordered)
        | inr (existing, there) ↦
            let (here, found) =
              active_found reg.project_id rtype (name_of svc text req) db.rows existing k there in
            let (a, b, c) =
              at_name_sound reg.project_id rtype (name_of svc text req) existing here in
            let ordered : IsOrdered (again existing.rtype existing) = record {
              typed = typed ∙ ap some (sym b);
              owned = a;
              named = c;
              wanted = refl;
              waiting = refl;
              requested_by = refl;
              unowned = refl;
            } in
            rw (enqueue_named, is_update, is_insert, new, typed, there)
              (subst
                (λ t.
                  IsEnqueued
                    ((existing.state == "provisioned"
                        && not (text.same existing.spec (wanted_spec text req)))
                      && existing.id == id)
                    false (find_record id db.rows)
                    (find_record id (enqueue_existing svc text env req t existing db).0.rows))
                b (enqueue_existing-IsEnqueued existing db id found ordered))
      ]

  enqueue_apply-IsEnqueued :
      (db : ProvisionDb F) (id : String)
      → IsKeyed record_id db.rows
      → IsEnqueued
          (is_update db id)
          (is_insert db id)
          (find_record id db.rows)
          (find_record id (enqueue_apply svc text env reg req db).0.rows)
  unfolding enqueue_apply
  enqueue_apply-IsEnqueued db id k = elim (Option-cases (get_by_request req.id db.rows)) [
    | inr (known, found) ↦
        rw (found, enqueue_apply, is_update, is_insert) (kept_row (find_record id db.rows))
    | inl new ↦ elim (Option-cases (get_str req.payload "resource_type")) [
      | inl untyped ↦
          rw (new, untyped, enqueue_apply, is_update, is_insert) (kept_row (find_record id db.rows))
      | inr (rtype, typed) ↦
          rw (new, typed, enqueue_apply) (enqueue_named-IsEnqueued rtype db id typed k new)
    ]
  ]

  -- Enqueueing an approved request, as one step that no other call comes between, in a table without
  -- two rows of an id: it keeps the table free of two live resources of one project, service and name.
  -- Where the table has no row for the request yet: if there is no live resource of the name, a new id
  -- gets a row for the request; if there is one, is provisioned and has another specification, it
  -- becomes a row for the request, with no trace of earlier attempts. Every other id keeps what it had.
  -- A row for the request is of its service, name and specification, and waits for a worker.
  pub enqueue_apply_lem :
      (db : ProvisionDb F)
      → IsKeyed record_id db.rows
      → IsSingle db.rows
      → IsSingle (enqueue_apply svc text env reg req db).0.rows
        × ((id : String)
            → IsEnqueued
                (is_update db id)
                (is_insert db id)
                (find_record id db.rows)
                (find_record id (enqueue_apply svc text env reg req db).0.rows))
  enqueue_apply_lem db k single = (
    enqueue_apply-IsSingle svc text env reg req db k single,
    λ id. enqueue_apply-IsEnqueued db id k,
  )
