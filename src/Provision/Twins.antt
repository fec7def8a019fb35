-- ===== src/Provision/Twins.antt =====
-- crates/provision/src/lib.rs: a request for the name of a failed resource, and the retry of it.
mod Tests
use frontkeep.Base.{
  String, ◌≡◌, refl, sym, ap, subst, ◌∙◌, ◌≢◌, true, none, some, List, ◌==◌, eq_iff, eq_refl, arith,
  if◌then◌else◌, ok, is_hit, IsKeyed, row_of-insert, append-IsKeyed,
}
use frontkeep.Base.Float.{Float}
use frontkeep.Base.Json.{get_str, Json}
use frontkeep.Provision.Connectors.{Service}
use frontkeep.Provision.Enqueue.{name_of, new_record_of, enqueue_named, enqueue_apply, JsonText}
use frontkeep.Provision.Queries.{get_by_request, get_active_by_name}
use frontkeep.Provision.Repo.{
  record_id, find_record, insert_record, is_abandoned, ProvisionedRecord,
}
use frontkeep.Provision.Retries.{driven, drive_core_lem}
use frontkeep.Provision.Single.{at_name}
use frontkeep.Provision.Worker.{
  stale_cutoff, Connector, drive_core, RetryPolicy, apply, ProvisionDb,
}
use frontkeep.Registry.Records.{Registration}
use frontkeep.Storage.Env.{Env}
use frontkeep.Workflow.Engine.{WorkflowRequest}

module _ {F : Float} where
  insert_record-IsKeyed :
      (rec : ProvisionedRecord F) (rows : List (ProvisionedRecord F))
      → find_record rec.id rows ≡ none
      → IsKeyed record_id rows
      → IsKeyed record_id (insert_record rec rows)
  unfolding insert_record
  insert_record-IsKeyed rec rows fresh k =
      append-IsKeyed record_id (record rec { worker_owner = none }) rows fresh k

  insert_record-find :
      (rec : ProvisionedRecord F) (id : String) (rows : List (ProvisionedRecord F))
      → rec.worker_owner ≡ none
      → find_record rec.id rows ≡ none
      → find_record id (insert_record rec rows)
        ≡ (if id == rec.id then some rec else find_record id rows)
  unfolding insert_record
  insert_record-find rec id rows idle fresh =
      ground
        (arith, idle, row_of-insert record_id (record rec { worker_owner = none }) id rows fresh)

module _ {F : Float} (svc : Service F) (text : JsonText) (reg : Registration F)
    (req : WorkflowRequest) (r : ProvisionedRecord F) where
  -- An approved request that asks again for what a failed record was to be.
  pub record IsRepeat (rows : List (ProvisionedRecord F)) : Type 0 where
    pub keyed : IsKeyed record_id rows
    pub stored : find_record r.id rows ≡ some r
    pub failed : r.state ≡ "failed"
    pub new : get_by_request req.id rows ≡ none
    pub typed : get_str req.payload "resource_type" ≡ some r.rtype
    pub named : name_of svc text req ≡ r.name
    pub owned : reg.project_id ≡ r.project_id
    pub free : get_active_by_name r.project_id r.rtype r.name rows ≡ none

  enqueue_apply-repeat :
      (env : Env) (db : ProvisionDb F)
      → IsRepeat db.rows
      → (enqueue_apply svc text env reg req db).0.rows
        ≡ insert_record (new_record_of svc text env reg req r.rtype) db.rows
  unfolding enqueue_apply
  enqueue_apply-repeat env db h =
      let free : get_active_by_name reg.project_id r.rtype (name_of svc text req) db.rows ≡ none =
        rw (h.owned, h.named) h.free in
      rw (enqueue_apply, h.new, h.typed) (rw (enqueue_named, free) refl)

  live_at :
      is_hit (at_name r.project_id r.rtype r.name) (some (record r { state = "provisioned" }))
      ≡ true
  live_at = rw (eq_refl r.project_id, eq_refl r.rtype, eq_refl r.name) refl

  -- In a table without two rows of an id: an approved request, not enqueued before, that asks again
  -- for what a failed record was to be, while nothing of the name is live, makes a second record
  -- under a fresh id; if a worker then drives the failed record, which nobody holds, and its
  -- connector succeeds, both records are live under the one name.
  pub drive_core-enqueue_apply :
      (env env' : Env) (instance_id : String) (connector : Connector F)
      (policy_of : String → RetryPolicy) (outputs : Json) (db : ProvisionDb F)
      → IsRepeat db.rows
      → find_record env.uid db.rows ≡ none
      → is_abandoned (stale_cutoff env') r ≡ true
      → connector apply r ≡ ok outputs
      → (r.id ≢ env.uid)
        × (is_hit (at_name r.project_id r.rtype r.name) (
              find_record r.id
                (drive_core env' instance_id connector policy_of r.id
                  (enqueue_apply svc text env reg req db).0).0.rows)
            ≡ true)
        × (is_hit (at_name r.project_id r.rtype r.name) (
              find_record env.uid
                (drive_core env' instance_id connector policy_of r.id
                  (enqueue_apply svc text env reg req db).0).0.rows)
            ≡ true)
  unfolding driven
  drive_core-enqueue_apply env env' instance_id connector policy_of outputs db h fresh idle works =
      let db1 = (enqueue_apply svc text env reg req db).0 in
      let rec = new_record_of svc text env reg req r.rtype in
      let put : db1.rows ≡ insert_record rec db.rows = enqueue_apply-repeat env db h in
      let differ : r.id ≢ env.uid =
        λ e. ground (arith, fresh, subst (λ id. find_record id db.rows ≡ some r) e h.stored) in
      let k1 : IsKeyed record_id db1.rows =
        subst (IsKeyed record_id) (sym put) (insert_record-IsKeyed rec db.rows fresh h.keyed) in
      let reads : (id : String)
          → find_record id db1.rows ≡ (if id == env.uid then some rec else find_record id db.rows) =
        λ id. ap (find_record id) put ∙ insert_record-find rec id db.rows refl fresh in
      let there : find_record r.id db1.rows ≡ some r =
        reads r.id ∙ ground (arith, h.stored, differ, eq_iff r.id env.uid) in
      let driven_at = λ (id : String).
        drive_core_lem env' instance_id connector policy_of r.id db1 r apply id k1 there
          (rw h.failed refl) in
      let second : find_record env.uid db1.rows ≡ some rec =
        reads env.uid ∙ ground (arith, eq_refl env.uid) in
      (
        differ,
        rw (driven_at r.id, eq_refl r.id, idle, works, driven) live_at,
        ground (
          arith,
          driven_at env.uid,
          second,
          differ,
          eq_iff env.uid r.id,
          h.owned,
          h.named,
          eq_refl r.project_id,
          eq_refl r.rtype,
          eq_refl r.name,
        ),
      )
