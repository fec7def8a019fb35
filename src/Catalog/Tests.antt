-- ===== src/Catalog/Tests.antt =====
-- crates/catalog: references, the table of entities and a pass at concrete inputs.
use frontkeep.Base.{
  ℕ, ◌+◌, String, ◌≡◌, refl, false, none, some, List, [], ◌∷◌, eqb, if◌then◌else◌, ok,
}
use frontkeep.Base.Json.{null}
use frontkeep.Catalog.Entities.{from_manifest, Metadata, Manifest, Origin, Entity}
use frontkeep.Catalog.Observed.{published}
use frontkeep.Catalog.Reconcile.{reconcile, RawManifest, Pass, Reader}
use frontkeep.Catalog.Refs.{ref_parse, canonical, ref_parse-canonical, EntityRef, IsWritable}
use frontkeep.Catalog.Removed.{NoOrphans, reconcile-NoOrphans}
use frontkeep.Catalog.Repo.{upsert, CatalogDb}
use frontkeep.Catalog.Stored.{lookup, stored, is_key_of, lookup-upsert}
use frontkeep.Storage.Env.{Env}

abbrev lower : String → String
lower s = s

abbrev ref_of_app : EntityRef
ref_of_app = record { kind = some "app"; namespace = "team"; name = "billing" }

ref_of_app-IsWritable : IsWritable lower ref_of_app
unfolding canonical
ref_of_app-IsWritable = record {
  kind_ok = (refl, refl, refl);
  namespace_ok = refl;
  name_ok = refl;
  trimmed = refl;
}

ref_parse-canonical_example : ref_parse lower (canonical ref_of_app) ≡ ok ref_of_app
ref_parse-canonical_example = ref_parse-canonical lower ref_of_app ref_of_app-IsWritable

abbrev at : ℕ → Env
at n = record { now = 100 + n; uid = if eqb n 0 then "e1" else "e2"; audit_uid = "a1" }

abbrev meta_of : String → Metadata
meta_of name = record {
  name = name;
  namespace = "default";
  title = none;
  description = none;
  labels = [];
  annotations = [];
  tags = [];
}

abbrev nowhere : Origin
nowhere = record { source_id = some "git"; repo = none; path = none; commit = none }

abbrev manifest_of : String → Manifest
manifest_of name = record {
  api_version = none;
  kind = "App";
  metadata = meta_of name;
  spec = null;
  relations = [];
}

abbrev hash_of : Manifest → String
hash_of m = m.metadata.name

abbrev tables : CatalogDb
tables = record { entities = []; relations = [] }

abbrev entity : Entity
entity = from_manifest hash_of (at 0) (manifest_of "billing") nowhere

lookup-upsert_example : lookup (upsert (at 0) entity tables).0 ≡ (λ kind namespace name.
    if is_key_of entity kind namespace name
    then some (stored (at 0) entity none)
    else lookup tables kind namespace name)
lookup-upsert_example = lookup-upsert (at 0) entity tables tt

-- Each file holds the manifest that it names.
abbrev reader : Reader
reader = record {
  parse_manifests = λ text. ok (manifest_of text ∷ []);
  known_kind = λ kind. false;
  validate = λ m. none;
  content_hash = hash_of;
  to_lowercase = lower;
}

abbrev raws : List RawManifest
raws = record { repo = "r"; path = "p"; commit = none; content = "ledger" } ∷ []

abbrev stocked : CatalogDb
stocked = (upsert (at 0) entity tables).0

reconcile-NoOrphans_example :
    (pass : Pass) × (reconcile reader at "git" (ok raws) stocked [] ≡ ok pass)
    × NoOrphans reader.to_lowercase "git" (published reader raws) pass.db.entities
reconcile-NoOrphans_example = reconcile-NoOrphans reader at "git" raws stocked []
