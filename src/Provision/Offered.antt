-- ===== src/Provision/Offered.antt =====
-- crates/provision/src/manifest.rs: what a loaded catalog offers, and at which tiers.
use frontkeep.Base.{
  ℕ, ◌≤◌, String, ◌≡◌, refl, sym, subst, inl, inr, Bool, true, false, not, ◌&&◌, Option, none, some,
  List, [], ◌∷◌, map, ◌==◌, eq_iff, arith, leb, if◌then◌else◌, Bool-cases, contains, is_some,
  or_else, ◌>>=◌, ◌>>◌, >>=-eq-ok, >>-eq-ok, ensure-eq-ok, after_test, chain-eq, Result, err, ok,
  is_blank, get_key, insert_key, get_key-insert_key,
}
use frontkeep.Base.Float.{Float}
use frontkeep.Base.Json.{Json}
use frontkeep.Catalog.Refs.{path}
use frontkeep.Provision.Manifest.{
  resolve, known_connectors, inference_kinds, known_cost_sources, classifications, class_rank,
  below_floor, above_ceiling, inference_ok, class_ok, selected, tier_violation, validate,
  InferenceCfg, ServiceManifest, ProvisionError,
}
use frontkeep.Provision.ServiceCatalog.{
  ServiceCatalog, collect_manifests, get_service, bundle, on_disk, parse_manifest, add_file,
  add_files, embedded, overlay_dir, load, Trees,
}

abbrev is_known : Option String → Bool
is_known none = true
is_known (some c) = contains classifications c

abbrev is_reachable : Option InferenceCfg → Bool
is_reachable none = true
is_reachable (some inf) = contains inference_kinds inf.kind && not (is_blank inf.api_key_env)

-- A manifest that names itself, and only a connector, a source of costs, an inference backend and
-- classifications that there are.
pub record IsSound {F : Float} (m : ServiceManifest F) : Type 0 where
  pub named : is_blank m.id ≡ false
  pub routed : contains known_connectors m.provisioner.connector ≡ true
  pub priced : contains known_cost_sources m.cost.source_type ≡ true
  pub inferred : is_reachable m.inference ≡ true
  pub low_known : is_known m.classification_min ≡ true
  pub high_known : is_known m.classification_max ≡ true

pub true-not : (b : Bool) → not b ≡ true → b ≡ false
true-not b h = ground arith

both : (a b : Bool) → a ≡ true → b ≡ true → (a && b) ≡ true
both a b h h' = ground arith

class_ok_sound : (id : String) (c : Option String) → class_ok id c ≡ ok tt → is_known c ≡ true
class_ok_sound id none h = refl
class_ok_sound id (some c) h = ensure-eq-ok (contains classifications c) _ h

inference_ok_sound :
    (id : String) (inf : Option InferenceCfg)
    → inference_ok id inf ≡ ok tt
    → is_reachable inf ≡ true
inference_ok_sound id none h = refl
inference_ok_sound id (some inf) h =
    let (a, b) = >>-eq-ok _ _ tt h in
    both _ _ (ensure-eq-ok (contains inference_kinds inf.kind) _ a)
      (ensure-eq-ok (not (is_blank inf.api_key_env)) _ b)

module _ {F : Float} where
  validate-IsSound : (m : ServiceManifest F) → validate m ≡ ok tt → IsSound m
  unfolding validate
  validate-IsSound m h =
      let (h5, a6) = >>-eq-ok _ _ tt h in
      let (h4, a5) = >>-eq-ok _ _ tt h5 in
      let (h3, a4) = >>-eq-ok _ _ tt h4 in
      let (h2, a3) = >>-eq-ok _ _ tt h3 in
      let (a1, a2) = >>-eq-ok _ _ tt h2 in
      record {
        named = true-not (is_blank m.id) (ensure-eq-ok (not (is_blank m.id)) _ a1);
        routed = ensure-eq-ok (contains known_connectors m.provisioner.connector) _ a2;
        priced = ensure-eq-ok (contains known_cost_sources m.cost.source_type) _ a3;
        inferred = inference_ok_sound m.id m.inference a4;
        low_known = class_ok_sound m.id m.classification_min a5;
        high_known = class_ok_sound m.id m.classification_max a6;
      }

  abbrev pub of_id : String → Result ProvisionError (ServiceManifest F) → Option (ServiceManifest F)
  of_id id (err e) = none
  of_id id (ok m) = if m.id == id then some m else none

  -- Each service stands under its own id, and its manifest is sound.
  pub IsStocked : ServiceCatalog F → Type 0
  IsStocked cat =
      (id : String) (m : ServiceManifest F) → get_key cat id ≡ some m → (m.id ≡ id) × IsSound m

  insert-IsStocked :
      (cat : ServiceCatalog F) (m : ServiceManifest F)
      → IsSound m
      → IsStocked cat
      → IsStocked (insert_key cat m.id m)
  unfolding IsStocked
  insert-IsStocked cat m sound stocked id n found = elim (Bool-cases (id == m.id)) [
    | inl same ↦
        let e : m ≡ n = ground (arith, get_key-insert_key cat m.id id m, same, found) in
        subst (λ x. (x.id ≡ id) × IsSound x) e (ground (arith, same, eq_iff id m.id), sound)
    | inr other ↦ stocked id n (ground (arith, get_key-insert_key cat m.id id m, other, found))
  ]

abbrev pub overlay_files : Option (String × Trees) → List (String × Result ProvisionError String)
overlay_files none = []
overlay_files (some (root, ts)) = map on_disk (collect_manifests root ts)

module _ {F : Float} (from_yaml : String → String → Result ProvisionError (ServiceManifest F)) where
  abbrev pub read_file :
      String × Result ProvisionError String → Result ProvisionError (ServiceManifest F)
  read_file (path, content) = content >>= parse_manifest from_yaml path

  -- What the last of some files that holds a manifest of an id says.
  abbrev pub last_of :
      String → List (String × Result ProvisionError String) → Option (ServiceManifest F)
  last_of id [] = none
  last_of id (f ∷ fs) = or_else (last_of id fs) (of_id id (read_file f))

  parse_manifest-IsSound :
      (where_at bytes : String) (m : ServiceManifest F)
      → parse_manifest from_yaml where_at bytes ≡ ok m
      → IsSound m
  unfolding parse_manifest
  parse_manifest-IsSound where_at bytes m h =
      let (n, read, checked) = >>=-eq-ok (from_yaml where_at bytes) (λ n. validate n >> ok n) h in
      let (valid, same) = after_test (validate n) n m checked in
      subst IsSound same (validate-IsSound n valid)

  add_file-IsSound :
      (cat next : ServiceCatalog F) (f : String × Result ProvisionError String)
      → add_file from_yaml cat f ≡ ok next
      → (m : ServiceManifest F) × (read_file f ≡ ok m) × (next ≡ insert_key cat m.id m) × IsSound m
  unfolding add_file
  add_file-IsSound cat next (where_at, content) h =
      let (bytes, a, b) =
        >>=-eq-ok content
          (λ bytes. parse_manifest from_yaml where_at bytes >>= λ m. ok (insert_key cat m.id m))
          h in
      let (m, c, d) =
        >>=-eq-ok (parse_manifest from_yaml where_at bytes) (λ m. ok (insert_key cat m.id m)) b in
      (m, chain-eq content _ _ a c, cc, parse_manifest-IsSound where_at bytes m c)

  add_files-IsSound :
      (cat next : ServiceCatalog F) (fs : List (String × Result ProvisionError String))
      → add_files from_yaml cat fs ≡ ok next
      → IsStocked cat
      → ((id : String) → get_key next id ≡ or_else (last_of id fs) (get_key cat id))
        × IsStocked next
  unfolding add_files
  add_files-IsSound cat next [] h stocked =
      ((λ id. ground (arith, h)), subst IsStocked (cc) stocked)
  add_files-IsSound cat next (f ∷ fs) h stocked =
      let (cat1, a, b) = >>=-eq-ok (add_file from_yaml cat f) (λ c. add_files from_yaml c fs) h in
      let (m, read, put, sound) = add_file-IsSound cat cat1 f a in
      let stocked1 = subst IsStocked (sym put) (insert-IsStocked cat m sound stocked) in
      let (reads, stocked2) = add_files-IsSound cat1 next fs b stocked1 in
      (
        λ id. ground (
          arith,
          reads id,
          put,
          read,
          get_key-insert_key cat m.id id m,
          eq_iff id m.id,
          eq_iff m.id id,
        ),
        stocked2,
      )

  -- A catalog that loads offers, under each id, the manifest of the last file of the operator's
  -- directory that has the id, else of the last embedded file that has it, else nothing; each is
  -- under its own id and passes every check of the validation.
  pub load_lem :
      (files : List (String × Option String)) (overlay : Option (String × Trees))
      (cat : ServiceCatalog F)
      → load from_yaml files overlay ≡ ok cat
      → ((id : String)
          → get_service id cat
            ≡ or_else (last_of id (overlay_files overlay)) (last_of id (bundle files)))
        × IsStocked cat
  unfolding load embedded overlay_dir get_service IsStocked
  load_lem files none cat h =
      let (cat1, a, b) = >>=-eq-ok (embedded from_yaml files) (λ c. ok c) h in
      let (reads, stocked) = add_files-IsSound [] cat1 (bundle files) a (λ id m found. cc) in
      (λ id. ground (arith, b, reads id), subst IsStocked (cc) stocked)
  load_lem files (some (root, ts)) cat h =
      let (cat1, a, b) = >>=-eq-ok (embedded from_yaml files) (overlay_dir from_yaml root ts) h in
      let (reads, stocked) = add_files-IsSound [] cat1 (bundle files) a (λ id m found. cc) in
      let (reads', stocked') =
        add_files-IsSound cat1 cat (map on_disk (collect_manifests root ts)) b stocked in
      (λ id. ground (arith, reads id, reads' id), stocked')

abbrev pub rank_or : Option String → ℕ → ℕ
rank_or none other = other
rank_or (some c) other = class_rank c

class_rank_bound : (c : String) → class_rank c ≤ 3
unfolding class_rank
class_rank_bound c = ground arith

-- With no floor or no ceiling, the lowest or the highest rank stands for it.
below_floor_lem :
    (floor : Option String) (c : String)
    → below_floor floor c ≡ not (leb (rank_or floor 0) (class_rank c))
below_floor_lem none c = ground arith
below_floor_lem (some low) c = ground arith

above_ceiling_lem :
    (ceiling : Option String) (c : String)
    → above_ceiling ceiling c ≡ not (leb (class_rank c) (rank_or ceiling 3))
above_ceiling_lem none c = ground (arith, class_rank_bound c)
above_ceiling_lem (some high) c = ground arith

module _ {F : Float} where
  -- The lowest classification at which a request with this specification may use the service: that
  -- of the variant which it selects, else the service's.
  abbrev pub floor_of : ServiceManifest F → Json → Option String
  floor_of m spec = elim m.variants [
    | none ↦ m.classification_min
    | some v ↦ elim (selected v spec) [
      | none ↦ m.classification_min
      | some o ↦ or_else o.classification_min m.classification_min
    ]
  ]

  resolve-floor :
      (m : ServiceManifest F) (spec : Json)
      → or_else (resolve m spec).classification_min m.classification_min ≡ floor_of m spec
  unfolding resolve
  resolve-floor m spec = ground arith

  -- Whether a person has to review: where the specification selects no known variant of a service
  -- that has some, or one that wants a review.
  abbrev pub force_of : ServiceManifest F → Json → Bool
  force_of m spec = elim m.variants [
    | none ↦ false
    | some v ↦ elim (selected v spec) [ none ↦ true | some o ↦ o.requires_approval ]
  ]

  -- A service is refused to a project exactly where the project's classification ranks below the
  -- floor of the variant that the specification selects (or the service's), or above the service's
  -- ceiling; and the resolution forces a review exactly where the specification selects no known
  -- variant of a service that has some, or one that wants approval.
  pub tier_violation-resolve :
      (m : ServiceManifest F) (spec : Json) (classification : String)
      → (is_some (tier_violation m classification (resolve m spec))
          ≡ not (
              leb (rank_or (floor_of m spec) 0) (class_rank classification)
              && leb (class_rank classification) (rank_or m.classification_max 3)))
        × ((resolve m spec).force_review ≡ force_of m spec)
  unfolding tier_violation resolve
  tier_violation-resolve m spec classification = (
    ground (
      arith,
      resolve-floor m spec,
      below_floor_lem (floor_of m spec) classification,
      above_ceiling_lem m.classification_max classification,
    ),
    ground arith,
  )
