-- ===== src/Catalog/Entities.antt =====
-- crates/catalog/src/entity.rs: manifests and the entities that are made of them. The hash of an
-- entity's content and the lower case of a text are parameters.
use frontkeep.Base.{ℕ, String, Bool, true, false, Option, none, List, ◌==◌, if◌then◌else◌, concat}
use frontkeep.Base.Json.{Json}
use frontkeep.Storage.Env.{Env}

pub data Lifecycle : Type 0 where
  active decommissioned archived : Lifecycle

unfoldable pub lifecycle_as_str : Lifecycle → String
lifecycle_as_str active = "active"
lifecycle_as_str decommissioned = "decommissioned"
lifecycle_as_str archived = "archived"

unfoldable pub lifecycle_parse : String → Lifecycle
lifecycle_parse s =
    if s == "decommissioned" then decommissioned else if s == "archived" then archived else active

abbrev pub is_terminal : Lifecycle → Bool
is_terminal active = false
is_terminal _ = true

pub record Metadata : Type 0 where
  pub name : String
  pub namespace : String
  pub title : Option String
  pub description : Option String
  pub labels : List (String × String)
  pub annotations : List (String × String)
  pub tags : List String

pub record Relation : Type 0 where
  pub rel_type : String
  pub target : String

pub record Manifest : Type 0 where
  pub api_version : Option String
  pub kind : String
  pub metadata : Metadata
  pub spec : Json
  pub relations : List Relation

pub record Origin : Type 0 where
  pub source_id : Option String
  pub repo : Option String
  pub path : Option String
  pub commit : Option String

pub record Entity : Type 0 where
  pub uid : String
  pub kind : String
  pub metadata : Metadata
  pub spec : Json
  pub relations : List Relation
  pub lifecycle : Lifecycle
  pub origin : Origin
  pub content_hash : String
  pub created_at : ℕ
  pub updated_at : ℕ
  pub seen_at : ℕ
  pub deleted_at : Option ℕ

-- `Entity::from_manifest`
abbrev pub from_manifest : (Manifest → String) → Env → Manifest → Origin → Entity
from_manifest content_hash env m origin = record {
  uid = env.uid;
  kind = m.kind;
  metadata = m.metadata;
  spec = m.spec;
  relations = m.relations;
  lifecycle = active;
  origin = origin;
  content_hash = content_hash m;
  created_at = env.now;
  updated_at = env.now;
  seen_at = env.now;
  deleted_at = none;
}

-- The canonical reference of a kind, a namespace and a name.
abbrev pub ref_of : (String → String) → String → String → String → String
ref_of to_lowercase kind namespace name =
    concat (to_lowercase kind) (concat ":" (concat namespace (concat "/" name)))

-- `entity_ref`
abbrev pub entity_ref : (String → String) → Entity → String
entity_ref to_lowercase e = ref_of to_lowercase e.kind e.metadata.namespace e.metadata.name
