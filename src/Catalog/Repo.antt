-- ===== src/Catalog/Repo.antt =====
-- crates/catalog/src/repo.rs: the tables `entities` and `relations`. The JSON columns hold their
-- values.
use mathlib.Core.Option
use frontkeep.Base.{
  ℕ, String, Bool, false, not, ◌&&◌, Option, none, some, List, [], ◌∷◌, ◌++◌, map, ◌==◌,
  if◌then◌else◌, keep, is_some, find?, update_where, delete_where, rows_affected, by_key, row_of,
}
use frontkeep.Base.Json.{Json}
use frontkeep.Catalog.Entities.{
  lifecycle_as_str, lifecycle_parse, ref_of, Lifecycle, Metadata, Relation, Origin, Entity,
}
use frontkeep.Storage.Env.{Env}

-- A row of `entities`
pub record EntityRow : Type 0 where
  pub uid : String
  pub kind : String
  pub namespace : String
  pub name : String
  pub title : Option String
  pub description : Option String
  pub spec : Json
  pub metadata : Metadata
  pub lifecycle : String
  pub origin : Origin
  pub content_hash : String
  pub seen_at : ℕ
  pub created_at : ℕ
  pub updated_at : ℕ
  pub deleted_at : Option ℕ

-- A row of `relations`
pub record RelationRow : Type 0 where
  pub from_uid : String
  pub rel_type : String
  pub to_ref : String

pub record CatalogDb : Type 0 where
  pub entities : List EntityRow
  pub relations : List RelationRow

abbrev pub row_uid : EntityRow → String
row_uid row = row.uid

-- `WHERE kind = ? AND namespace = ? AND name = ?`
abbrev pub at_key : (kind namespace name : String) → EntityRow → Bool
at_key kind namespace name row = row.kind == kind && row.namespace == namespace && row.name == name

abbrev pub is_live : EntityRow → Bool
is_live row = not (is_some row.deleted_at)

abbrev relation_row : String → Relation → RelationRow
relation_row from_uid r = record { from_uid = from_uid; rel_type = r.rel_type; to_ref = r.target }

unfoldable pub replace_relations : String → List Relation → List RelationRow → List RelationRow
replace_relations from_uid relations rows =
    delete_where (λ row. row.from_uid == from_uid) rows ++ map (relation_row from_uid) relations

pub data Upsert : Type 0 where
  inserted updated unchanged : Upsert

-- The row that an insert writes.
abbrev pub inserted_row : Env → Entity → EntityRow
inserted_row env e = record {
  uid = e.uid;
  kind = e.kind;
  namespace = e.metadata.namespace;
  name = e.metadata.name;
  title = e.metadata.title;
  description = e.metadata.description;
  spec = e.spec;
  metadata = e.metadata;
  lifecycle = lifecycle_as_str e.lifecycle;
  origin = e.origin;
  content_hash = e.content_hash;
  seen_at = env.now;
  created_at = e.created_at;
  updated_at = env.now;
  deleted_at = none;
}

-- The columns that an update sets.
abbrev pub updated_row : Env → Entity → EntityRow → EntityRow
updated_row env e row = record row {
  title = e.metadata.title;
  description = e.metadata.description;
  spec = e.spec;
  metadata = e.metadata;
  origin = e.origin;
  content_hash = e.content_hash;
  seen_at = env.now;
  updated_at = env.now;
  deleted_at = none;
}

abbrev pub is_unchanged : Entity → EntityRow → Bool
is_unchanged e row = row.content_hash == e.content_hash && is_live row

unfoldable pub upsert : Env → Entity → CatalogDb → CatalogDb × Upsert × String
upsert env e db = elim (find? (at_key e.kind e.metadata.namespace e.metadata.name) db.entities) [
  | some row ↦
      if is_unchanged e row
      then (
        record db {
          entities =
              update_where (by_key row_uid row.uid) (λ old. record old { seen_at = env.now })
                db.entities;
        },
        unchanged,
        row.uid,
      )
      else (
        record {
          entities = update_where (by_key row_uid row.uid) (updated_row env e) db.entities;
          relations = replace_relations row.uid e.relations db.relations;
        },
        updated,
        row.uid,
      )
  | none ↦ (
    record {
      entities = db.entities ++ inserted_row env e ∷ [];
      relations = replace_relations e.uid e.relations db.relations;
    },
    inserted,
    e.uid,
  )
]

unfoldable pub row_to_entity : EntityRow → Entity
row_to_entity row = record {
  uid = row.uid;
  kind = row.kind;
  metadata = row.metadata;
  spec = row.spec;
  relations = [];
  lifecycle = lifecycle_parse row.lifecycle;
  origin = row.origin;
  content_hash = row.content_hash;
  created_at = row.created_at;
  updated_at = row.updated_at;
  seen_at = row.seen_at;
  deleted_at = row.deleted_at;
}

unfoldable pub get_entity : (kind namespace name : String) → CatalogDb → Option Entity
get_entity kind namespace name db =
    Option.map row_to_entity
      (find? (λ row. at_key kind namespace name row && is_live row) db.entities)

unfoldable pub get_by_uid : String → CatalogDb → Option Entity
get_by_uid uid db = Option.map row_to_entity (row_of row_uid uid db.entities)

-- The rows of a source that are not deleted.
abbrev pub is_active_for : String → EntityRow → Bool
is_active_for source_id row =
    elim row.origin.source_id [ none ↦ false | some s ↦ s == source_id ] && is_live row

abbrev pub row_ref : (String → String) → EntityRow → String
row_ref to_lowercase row = ref_of to_lowercase row.kind row.namespace row.name

unfoldable pub active_refs_for_source :
    (String → String) → String → CatalogDb → List (String × String)
active_refs_for_source to_lowercase source_id db =
    map (λ row. (row.uid, row_ref to_lowercase row)) (keep (is_active_for source_id) db.entities)

unfoldable pub soft_delete : Env → String → CatalogDb → CatalogDb
soft_delete env uid db = record db {
  entities =
      update_where (by_key row_uid uid)
        (λ row. record row { deleted_at = some env.now; updated_at = env.now }) db.entities;
}

unfoldable pub set_lifecycle : Env → String → Lifecycle → CatalogDb → CatalogDb
set_lifecycle env uid lifecycle db = record db {
  entities =
      update_where (by_key row_uid uid)
        (λ row. record row { lifecycle = lifecycle_as_str lifecycle; updated_at = env.now })
        db.entities;
}

unfoldable pub relations_of : String → CatalogDb → List Relation
relations_of from_uid db =
    map (λ row. record { rel_type = row.rel_type; target = row.to_ref })
      (keep (λ row. row.from_uid == from_uid) db.relations)

unfoldable pub count_live : CatalogDb → ℕ
count_live db = rows_affected is_live db.entities
