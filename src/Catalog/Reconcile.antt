-- ===== src/Catalog/Reconcile.antt =====
-- crates/catalog/src/reconcile.rs: a pass over a source. Parsing YAML, validating against a kind's
-- schema, hashing and the lower case of a text are parameters; so is the supply of clocks and ids.
use mathlib.Core.Option
use frontkeep.Base.{
  ℕ, ◌+◌, String, Bool, Option, none, some, List, [], ◌∷◌, ◌++◌, ◌==◌, if◌then◌else◌, contains,
  ◌>>=◌, Result, err, ok, join, concat,
}
use frontkeep.Catalog.Entities.{from_manifest, ref_of, Manifest, Entity}
use frontkeep.Catalog.Refs.{CatalogError}
use frontkeep.Catalog.Repo.{upsert, active_refs_for_source, soft_delete, CatalogDb, Upsert}
use frontkeep.Storage.Audit.{new_record, append, AuditRecord}
use frontkeep.Storage.Env.{Env}

-- `RawManifest`, a file that was fetched
pub record RawManifest : Type 0 where
  pub repo : String
  pub path : String
  pub commit : Option String
  pub content : String

pub record ReconcileReport : Type 0 where
  pub inserted : ℕ
  pub updated : ℕ
  pub unchanged : ℕ
  pub removed : ℕ
  pub invalid : List (String × List String)

-- `ReconcileReport::observed`
abbrev pub observed_count : ReconcileReport → ℕ
observed_count r = r.inserted + r.updated + r.unchanged

-- The pass: the tables, the audit log, the report, the references seen so far, and how many clocks
-- and ids were taken.
pub record Pass : Type 0 where
  pub db : CatalogDb
  pub audit_log : List AuditRecord
  pub report : ReconcileReport
  pub seen : List String
  pub taken : ℕ

-- What the pass asks of the parts that are not modelled.
pub record Reader : Type 0 where
  pub parse_manifests : String → Result String (List Manifest)
  pub known_kind : String → Bool
  -- the errors of a manifest that its schema refuses
  pub validate : Manifest → Option (List String)
  pub content_hash : Manifest → String
  pub to_lowercase : String → String

abbrev pub invalid : Pass → String → List String → Pass
invalid pass label errors = record pass {
  report = record pass.report { invalid = pass.report.invalid ++ (label, errors) ∷ [] };
}

abbrev audit_entity : Env → String → String → String → List AuditRecord → List AuditRecord
audit_entity env action ref outcome log =
    append
      (record (new_record env "reconciler" action) { entity_ref = some ref; outcome = outcome }) log

-- The report and the audit record of an upsert.
abbrev pub booked : Env → String → Upsert → Pass → Pass
booked env ref Upsert.inserted pass = record pass {
  report = record pass.report { inserted = pass.report.inserted + 1 };
  audit_log = audit_entity env "entity.upserted" ref "inserted" pass.audit_log;
}
booked env ref Upsert.updated pass = record pass {
  report = record pass.report { updated = pass.report.updated + 1 };
  audit_log = audit_entity env "entity.upserted" ref "updated" pass.audit_log;
}
booked env ref Upsert.unchanged pass = record pass {
  report = record pass.report { unchanged = pass.report.unchanged + 1 };
}

abbrev pub start : CatalogDb → List AuditRecord → Pass
start db log = record {
  db = db;
  audit_log = log;
  report = record { inserted = 0; updated = 0; unchanged = 0; removed = 0; invalid = [] };
  seen = [];
  taken = 0;
}

module _ (reader : Reader) where
  -- The errors that keep a manifest out, with the label that they are reported under.
  abbrev pub refusal : RawManifest → Manifest → Option (String × List String)
  refusal raw m =
      if reader.known_kind m.kind
      then Option.map (λ errors. (concat raw.path (concat "#" m.metadata.name), errors))
          (reader.validate m)
      else if m.metadata.name == ""
      then some (raw.path, "metadata.name required" ∷ [])
      else none

  abbrev pub manifest_ref : Manifest → String
  manifest_ref m = ref_of reader.to_lowercase m.kind m.metadata.namespace m.metadata.name

module _ (reader : Reader) (envs : ℕ → Env) (source_id : String) where
  -- A kind with a schema has its refusal audited.
  abbrev pub refuse : RawManifest → Manifest → Pass → String × List String → Pass
  refuse raw m pass (label, errors) =
      let reported = invalid pass label errors in
      if reader.known_kind m.kind
      then record reported {
        taken = pass.taken + 1;
        audit_log =
            append
              (record (new_record (envs pass.taken) "reconciler" "entity.invalid") {
                entity_ref = some label;
                outcome = "denied";
                reason = some (join errors "; ");
              })
              pass.audit_log;
      }
      else reported

  abbrev pub entity_from : Pass → RawManifest → Manifest → Entity
  entity_from pass raw m = from_manifest reader.content_hash (envs pass.taken) m (record {
    source_id = some source_id;
    repo = some raw.repo;
    path = some raw.path;
    commit = raw.commit;
  })

  abbrev pub accept : RawManifest → Manifest → Pass → Pass
  accept raw m pass =
      let env = envs pass.taken in
      let out = upsert env (entity_from pass raw m) pass.db in
      booked env (manifest_ref reader m) out.1 (record pass {
        db = out.0;
        seen = pass.seen ++ manifest_ref reader m ∷ [];
        taken = pass.taken + 1;
      })

  unfoldable pub reconcile_manifest : RawManifest → Pass → Manifest → Pass
  reconcile_manifest raw pass m = elim (refusal reader raw m) [
    | some r ↦ refuse raw m pass r
    | none ↦ accept raw m pass
  ]

  unfoldable pub reconcile_manifests : RawManifest → Pass → List Manifest → Pass
  reconcile_manifests raw pass [] = pass
  reconcile_manifests raw pass (m ∷ ms) = reconcile_manifests raw (reconcile_manifest raw pass m) ms

  -- A file that does not parse is reported.
  abbrev pub read_file : RawManifest → Pass → Result String (List Manifest) → Pass
  read_file raw pass (err e) = invalid pass raw.path (e ∷ [])
  read_file raw pass (ok ms) = reconcile_manifests raw pass ms

  unfoldable pub reconcile_raw : Pass → RawManifest → Pass
  reconcile_raw pass raw = read_file raw pass (reader.parse_manifests raw.content)

  unfoldable pub reconcile_raws : Pass → List RawManifest → Pass
  reconcile_raws pass [] = pass
  reconcile_raws pass (raw ∷ raws) = reconcile_raws (reconcile_raw pass raw) raws

  abbrev pub removal : Pass → String → String → Pass
  removal pass uid ref = record pass {
    db = soft_delete (envs pass.taken) uid pass.db;
    report = record pass.report { removed = pass.report.removed + 1 };
    audit_log = audit_entity (envs pass.taken) "entity.removed" ref "removed" pass.audit_log;
    taken = pass.taken + 1;
  }

  -- A stored entity that was not seen is removed.
  abbrev pub remove_one : Pass → String × String → Pass
  remove_one pass (uid, ref) = if contains pass.seen ref then pass else removal pass uid ref

  unfoldable pub remove_unseen : Pass → List (String × String) → Pass
  remove_unseen pass [] = pass
  remove_unseen pass (s ∷ ss) = remove_unseen (remove_one pass s) ss

  -- `reconcile`, from what `fetch` gave
  unfoldable pub reconcile :
      Result CatalogError (List RawManifest)
      → CatalogDb
      → List AuditRecord
      → Result CatalogError Pass
  reconcile fetched db log = do
    raws ← fetched
    let pass = reconcile_raws (start db log) raws
    ok (remove_unseen pass (active_refs_for_source reader.to_lowercase source_id pass.db))
