-- ===== src/Catalog/Refs.antt =====
-- crates/catalog/src/entity.rs: references to entities. The lower case of a text is a parameter.
use frontkeep.Base.{
  String, ◌≡◌, refl, false, Option, none, some, ◌==◌, arith, if◌then◌else◌, unwrap_or, Result, err,
  ok, split_once, trim, has_char, split_once-append, split_once-none, concat, concat-one,
}

pub data CatalogError : Type 0 where
  http bad_ref not_found : String → CatalogError

pub record EntityRef : Type 0 where
  pub kind : Option String
  pub namespace : String
  pub name : String

abbrev pub default_namespace : String
default_namespace = "default"

-- The kind before a colon, if there is one, and the rest.
abbrev pub split_kind : (String → String) → String → Option String × String
split_kind to_lowercase s = elim (split_once s b':') [
  | none ↦ (none, s)
  | some (k, r) ↦ if k == "" then (none, s) else (some (to_lowercase k), r)
]

-- The namespace and the name in what is left.
abbrev pub split_name : String → String × String
split_name rest = unwrap_or (split_once rest b'/') (default_namespace, rest)

unfoldable pub ref_parse : (String → String) → String → Result CatalogError EntityRef
ref_parse to_lowercase text =
    let s = trim text in
    let (kind, rest) = split_kind to_lowercase s in
    let (namespace, name) = split_name rest in
    if name == ""
    then err (bad_ref s)
    else ok (record { kind = kind; namespace = namespace; name = name })

abbrev pub path : EntityRef → String
path r = concat r.namespace (concat "/" r.name)

unfoldable pub canonical : EntityRef → String
canonical r = elim r.kind [ none ↦ path r | some k ↦ concat k (concat ":" (path r)) ]

-- A reference that its text stands for: the kind is a nonempty text in lower case, and no part holds
-- the mark that ends it.
abbrev pub IsKind : (String → String) → EntityRef → Type 0
IsKind to_lowercase r = elim r.kind [
  | none ↦ has_char (path r) b':' ≡ false
  | some k ↦ (has_char k b':' ≡ false) × (to_lowercase k ≡ k) × ((k == "") ≡ false)
]

pub record IsWritable (to_lowercase : String → String) (r : EntityRef) : Type 0 where
  pub kind_ok : IsKind to_lowercase r
  pub namespace_ok : has_char r.namespace b'/' ≡ false
  pub name_ok : (r.name == "") ≡ false
  pub trimmed : trim (canonical r) ≡ canonical r

split_name-path :
    (r : EntityRef)
    → has_char r.namespace b'/' ≡ false
    → split_name (path r) ≡ (r.namespace, r.name)
split_name-path r free =
    rw (concat-one "/" r.name, split_once-append r.namespace r.name "/" free) refl

split_kind-canonical :
    (to_lowercase : String → String) (kind : Option String) (namespace name : String)
    → let r : EntityRef = record { kind = kind; namespace = namespace; name = name } in
      IsKind to_lowercase r → split_kind to_lowercase (canonical r) ≡ (kind, path r)
unfolding canonical
split_kind-canonical to_lowercase none namespace name free =
    rw (split_once-none (concat namespace (concat "/" name)) b':' free, split_kind) refl
split_kind-canonical to_lowercase (some k) namespace name (free, low, full) =
    let p = concat namespace (concat "/" name) in
    rw (concat-one ":" p, split_once-append k p ":" free, split_kind) (ground (arith, low, full))

-- Reading the canonical text of a reference gives the reference back, if no part of it holds the
-- mark that ends it, its kind is in lower case, its name is not empty, and its text has no white
-- space at its ends.
pub ref_parse-canonical :
    (to_lowercase : String → String) (r : EntityRef)
    → IsWritable to_lowercase r
    → ref_parse to_lowercase (canonical r) ≡ ok r
unfolding ref_parse
ref_parse-canonical to_lowercase r w = ground (
  arith,
  w.trimmed,
  w.name_ok,
  split_kind-canonical to_lowercase r.kind r.namespace r.name w.kind_ok,
  split_name-path r w.namespace_ok,
)
