-- ===== src/Provision/ServiceCatalog.antt =====
-- crates/provision/src/manifest.rs: the catalog of services, from the embedded manifests and an
-- operator's directory. What a file's bytes read as (UTF-8, then YAML) is a parameter.
use frontkeep.Base.{
  String, Bool, true, false, not, Option, none, some, List, [], ◌∷◌, ◌++◌, map, ◌==◌, if◌then◌else◌,
  keep, ◌>>=◌, ◌>>◌, ok_or, ensure, map_err, Result, ok, ends_with, get_key, insert_key,
}
use frontkeep.Base.Float.{Float}
use frontkeep.Base.Json.{get_value, Json, null, str}
use frontkeep.Catalog.Refs.{path}
use frontkeep.Provision.Manifest.{
  text_of, validate, ServiceManifest, ProvisionError, unsupported, invalid_spec, backend_error,
}

abbrev pub ServiceCatalog : Float → Type 0
ServiceCatalog F = List (String × ServiceManifest F)

-- A directory: its entries in the order in which they are read.
mutual
  pub data Tree : Type 0 where
    file : (name : String) → (content : Result String String) → Tree
    dir : (name : String) → Trees → Tree

  pub data Trees : Type 0 where
    no_trees : Trees
    tree : Tree → Trees → Trees

unfoldable mutual
  pub collect_tree : String → Tree → List (String × Result String String)
  collect_tree path (file name content) =
      if name == "service.yaml" then (text_of (path ∷ "/" ∷ name ∷ []), content) ∷ [] else []
  collect_tree path (dir name ts) = collect_manifests (text_of (path ∷ "/" ∷ name ∷ [])) ts

  pub collect_manifests : String → Trees → List (String × Result String String)
  collect_manifests path no_trees = []
  collect_manifests path (tree t ts) = collect_tree path t ++ collect_manifests path ts

abbrev pub is_present : Option Json → Bool
is_present none = false
is_present (some null) = false
is_present (some (str s)) = not (s == "")
is_present (some v) = true

abbrev pub require_fields : String → Json → List String → Result ProvisionError (Unit {0})
require_fields id spec [] = ok tt
require_fields id spec (field ∷ others) =
    ensure (is_present (get_value spec field))
      (invalid_spec (text_of ("service '" ∷ id ∷ "' requires field '" ∷ field ∷ "'" ∷ [])))
    >> require_fields id spec others

module _ {F : Float} where
  unfoldable pub get_service : String → ServiceCatalog F → Option (ServiceManifest F)
  get_service id cat = get_key cat id

  unfoldable pub validate_spec : String → Json → ServiceCatalog F → Result ProvisionError (Unit {0})
  validate_spec id spec cat =
      ok_or (get_service id cat) (unsupported id) >>= λ m. require_fields id spec m.required_fields

abbrev pub bundled : String × Option String → String × Result ProvisionError String
bundled (path, f) =
    (path, ok_or f (invalid_spec (text_of ("embedded manifest missing: " ∷ path ∷ []))))

abbrev pub bundle : List (String × Option String) → List (String × Result ProvisionError String)
bundle files = map bundled (keep (λ f. ends_with f.0 "service.yaml") files)

abbrev pub on_disk : String × Result String String → String × Result ProvisionError String
on_disk (path, content) =
    (path, map_err (λ e. backend_error (text_of ("read " ∷ path ∷ ": " ∷ e ∷ []))) content)

module _ {F : Float} (from_yaml : String → String → Result ProvisionError (ServiceManifest F)) where
  -- `parse`
  unfoldable pub parse_manifest : String → String → Result ProvisionError (ServiceManifest F)
  parse_manifest path bytes = from_yaml path bytes >>= λ m. validate m >> ok m

  -- One more file: its manifest is put under its id.
  unfoldable pub add_file :
      ServiceCatalog F
      → String × Result ProvisionError String
      → Result ProvisionError (ServiceCatalog F)
  add_file cat (path, content) =
      content >>= λ bytes. parse_manifest path bytes >>= λ m. ok (insert_key cat m.id m)

  unfoldable pub add_files :
      ServiceCatalog F
      → List (String × Result ProvisionError String)
      → Result ProvisionError (ServiceCatalog F)
  add_files cat [] = ok cat
  add_files cat (f ∷ fs) = add_file cat f >>= λ next. add_files next fs

  -- The paths in the binary that are manifests, each with what it holds.
  unfoldable pub embedded : List (String × Option String) → Result ProvisionError (ServiceCatalog F)
  embedded files = add_files [] (bundle files)

  unfoldable pub overlay_dir :
      String → Trees → ServiceCatalog F → Result ProvisionError (ServiceCatalog F)
  overlay_dir path ts cat = add_files cat (map on_disk (collect_manifests path ts))

  unfoldable pub load :
      List (String × Option String)
      → Option (String × Trees)
      → Result ProvisionError (ServiceCatalog F)
  load files overlay = embedded files >>= λ cat. elim overlay [
    | none ↦ ok cat
    | some (path, ts) ↦ overlay_dir path ts cat
  ]
