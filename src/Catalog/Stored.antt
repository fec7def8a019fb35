-- ===== src/Catalog/Stored.antt =====
-- crates/catalog/src/repo.rs: the table of entities as a map from kind, namespace and name.
use frontkeep.Base.{
  String, ◌≡◌, refl, fun_ext, inl, inr, Bool, true, not, ◌&&◌, Option, none, some, List, [], ◌∷◌,
  ◌++◌, ◌==◌, eq_iff, eq_refl, arith, if◌then◌else◌, Bool-cases, Option-cases, is_some, find?,
  update_where, find?-update_where, find?-append, find?_sound, by_key, row_of, IsKeyed,
  update_where-IsKeyed, append-IsKeyed, row_of-found,
}
use frontkeep.Catalog.Entities.{lifecycle_as_str, Entity}
use frontkeep.Catalog.Repo.{
  row_uid, at_key, inserted_row, updated_row, is_unchanged, upsert, EntityRow, CatalogDb,
}
use frontkeep.Storage.Env.{Env}

abbrev pub at_entity : Entity → EntityRow → Bool
at_entity e row = at_key e.kind e.metadata.namespace e.metadata.name row

-- The row that a key has.
abbrev pub lookup : CatalogDb → (kind namespace name : String) → Option EntityRow
lookup db kind namespace name = find? (at_key kind namespace name) db.entities

-- What an upsert has to leave under the entity's key: a new live row; or the row that was there, only
-- seen again if it is live and has the entity's hash, and else live with the entity's content and with
-- its own id, key, creation and lifecycle.
abbrev pub stored : Env → Entity → Option EntityRow → EntityRow
stored env e none = record {
  uid = e.uid;
  kind = e.kind;
  namespace = e.metadata.namespace;
  name = e.metadata.name;
  title = e.metadata.title;
  description = e.metadata.description;
  spec = e.spec;
  metadata = e.metadata;
  lifecycle = lifecycle_as_str e.lifecycle;
  origin = e.origin;
  content_hash = e.content_hash;
  seen_at = env.now;
  created_at = e.created_at;
  updated_at = env.now;
  deleted_at = none;
}
stored env e (some row) =
    if row.content_hash == e.content_hash && not (is_some row.deleted_at)
    then record row { seen_at = env.now }
    else record {
      uid = row.uid;
      kind = row.kind;
      namespace = row.namespace;
      name = row.name;
      title = e.metadata.title;
      description = e.metadata.description;
      spec = e.spec;
      metadata = e.metadata;
      lifecycle = row.lifecycle;
      origin = e.origin;
      content_hash = e.content_hash;
      seen_at = env.now;
      created_at = row.created_at;
      updated_at = env.now;
      deleted_at = none;
    }

abbrev pub is_key_of : Entity → String → String → String → Bool
is_key_of e kind namespace name =
    kind == e.kind && namespace == e.metadata.namespace && name == e.metadata.name

-- Rows that are selected by their keys and have one id are one row, so they have one key.
same_row :
    (rows : List EntityRow) (p q : EntityRow → Bool) (x y : EntityRow)
    → IsKeyed row_uid rows
    → find? p rows ≡ some x
    → find? q rows ≡ some y
    → x.uid ≡ y.uid
    → q x ≡ true
same_row rows p q x y k hx hy same = ground (
  arith,
  row_of-found row_uid p rows x k hx,
  row_of-found row_uid q rows y k hy,
  find?_sound q rows y hy,
)

is_key_of_sound :
    (e : Entity) (kind namespace name : String)
    → is_key_of e kind namespace name ≡ true
    → (kind ≡ e.kind) × (namespace ≡ e.metadata.namespace) × (name ≡ e.metadata.name)
is_key_of_sound e kind namespace name h =
    ground (
      arith,
      eq_iff kind e.kind,
      eq_iff namespace e.metadata.namespace,
      eq_iff name e.metadata.name,
    )

-- A row has one key.
at_key-is_key_of :
    (e : Entity) (kind namespace name : String) (x : EntityRow)
    → at_key kind namespace name x ≡ true
    → at_entity e x ≡ true
    → is_key_of e kind namespace name ≡ true
at_key-is_key_of e kind namespace name x h h' = ground (
  arith,
  eq_iff x.kind kind,
  eq_iff x.kind e.kind,
  eq_iff kind e.kind,
  eq_iff x.namespace namespace,
  eq_iff x.namespace e.metadata.namespace,
  eq_iff namespace e.metadata.namespace,
  eq_iff x.name name,
  eq_iff x.name e.metadata.name,
  eq_iff name e.metadata.name,
)

-- An update of the row of the entity's key, by its id.
lookup-update :
    (rows : List EntityRow) (e : Entity) (row : EntityRow) (f : EntityRow → EntityRow)
    (kind namespace name : String)
    → ((x : EntityRow) → at_key kind namespace name (f x) ≡ at_key kind namespace name x)
    → IsKeyed row_uid rows
    → find? (at_entity e) rows ≡ some row
    → find? (at_key kind namespace name) (update_where (by_key row_uid row.uid) f rows) ≡ (
        if is_key_of e kind namespace name
        then some (f row)
        else find? (at_key kind namespace name) rows)
lookup-update rows e row f kind namespace name h k found =
    let after = find?-update_where (at_key kind namespace name) (by_key row_uid row.uid) f rows h in
    elim (Bool-cases (is_key_of e kind namespace name)) [
      | inl same ↦
          let (a, b, c) = is_key_of_sound e kind namespace name same in
          rw (same, after, a, b, c, found) (ground (arith, eq_refl row.uid))
      | inr other ↦ elim (Option-cases (find? (at_key kind namespace name) rows)) [
        | inl missing ↦ rw (other, after, missing) refl
        | inr (x, there) ↦
            rw (other, after, there)
              (ground (
                arith,
                eq_iff x.uid row.uid,
                same_row rows (at_key kind namespace name) (at_entity e) x row k there found,
                find?_sound (at_key kind namespace name) rows x there,
                at_key-is_key_of e kind namespace name x,
                other,
              ))
      ]
    ]

lookup-insert :
    (env : Env) (e : Entity) (rows : List EntityRow) (kind namespace name : String)
    → find? (at_entity e) rows ≡ none
    → find? (at_key kind namespace name) (rows ++ inserted_row env e ∷ []) ≡ (
        if is_key_of e kind namespace name
        then some (inserted_row env e)
        else find? (at_key kind namespace name) rows)
lookup-insert env e rows kind namespace name missing =
    let after = find?-append (at_key kind namespace name) rows (inserted_row env e ∷ []) in
    elim (Bool-cases (is_key_of e kind namespace name)) [
      | inl same ↦
          let (a, b, c) = is_key_of_sound e kind namespace name same in
          rw (same, after, a, b, c, missing)
            (ground (arith, eq_refl e.kind, eq_refl e.metadata.namespace, eq_refl e.metadata.name))
      | inr other ↦
          rw (other, after)
            (ground (
              arith,
              other,
              eq_iff kind e.kind,
              eq_iff e.kind kind,
              eq_iff namespace e.metadata.namespace,
              eq_iff e.metadata.namespace namespace,
              eq_iff name e.metadata.name,
              eq_iff e.metadata.name name,
            ))
    ]

-- The table is a map from kind, namespace and name in which an upsert sets the entity's key, and
-- nothing else, if no two rows share an id: to a new live row where there is none, else to the row
-- that is there, seen again; unless that row is live and has the entity's hash, it is live then and
-- has the entity's content, and keeps its id, key, creation and lifecycle.
pub lookup-upsert :
    (env : Env) (e : Entity) (db : CatalogDb)
    → IsKeyed row_uid db.entities
    → lookup (upsert env e db).0 ≡ (λ kind namespace name.
      if is_key_of e kind namespace name
      then some (stored env e (lookup db e.kind e.metadata.namespace e.metadata.name))
      else lookup db kind namespace name)
unfolding upsert
lookup-upsert env e db k = fun_ext λ kind. fun_ext λ namespace. fun_ext λ name.
    elim (Option-cases (find? (at_entity e) db.entities)) [
      | inl missing ↦
          rw (missing, upsert) (lookup-insert env e db.entities kind namespace name missing)
      | inr (row, found) ↦ elim (Bool-cases (is_unchanged e row)) [
        | inl fresh ↦
            rw (found, upsert, fresh)
              (lookup-update db.entities e row (λ old. record old { seen_at = env.now }) kind
                namespace name (λ x. refl) k found)
        | inr changed ↦
            rw (found, upsert, changed)
              (lookup-update db.entities e row (updated_row env e) kind namespace name (λ x. refl) k
                found)
      ]
    ]

-- An upsert keeps the ids apart, if a new row's id is unused.
pub upsert-IsKeyed :
    (env : Env) (e : Entity) (db : CatalogDb)
    → row_of row_uid e.uid db.entities ≡ none
    → IsKeyed row_uid db.entities
    → IsKeyed row_uid (upsert env e db).0.entities
unfolding upsert
upsert-IsKeyed env e db fresh k = elim (Option-cases (find? (at_entity e) db.entities)) [
  | inl missing ↦
      rw (missing, upsert) (append-IsKeyed row_uid (inserted_row env e) db.entities fresh k)
  | inr (row, found) ↦ elim (Bool-cases (is_unchanged e row)) [
    | inl same ↦
        rw (found, upsert, same) (update_where-IsKeyed row_uid _ _ db.entities (λ x. refl) k)
    | inr changed ↦
        rw (found, upsert, changed) (update_where-IsKeyed row_uid _ _ db.entities (λ x. refl) k)
  ]
]
