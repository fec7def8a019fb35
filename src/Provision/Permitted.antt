-- ===== src/Provision/Permitted.antt =====
-- crates/provision/src/lib.rs: the checks on a request for a resource.
use frontkeep.Base.{
  String, ◌≡◌, refl, sym, ap, subst, ◌∙◌, Bool, true, false, not, ◌&&◌, Option, none, some, List,
  [], ◌∷◌, arith, leb, any, All, is_some, ◌>>=◌, ok_or, map_err, >>=-eq-ok, ok_or-eq-ok, >>-eq-ok,
  ensure-eq-ok, after_test, Result, err, ok, is_blank,
}
use frontkeep.Base.Float.{Float}
use frontkeep.Base.Json.{get_value, Json}
use frontkeep.Provision.Connectors.{is_target, Service}
use frontkeep.Provision.Manifest.{class_rank, ServiceManifest, unsupported, registry_failed}
use frontkeep.Provision.Offered.{true-not, rank_or, floor_of, tier_violation-resolve}
use frontkeep.Provision.Requests.{admit, tier_gate, gate_account, gate_cloud, checks}
use frontkeep.Provision.ServiceCatalog.{is_present, require_fields, get_service, validate_spec}
use frontkeep.Registry.Active.{require_active}
use frontkeep.Registry.Records.{Registration}

module _ {F : Float} (svc : Service F) (registered : String → Option (Registration F)) where
  -- A request that may be made: of a registered, live project, for a service on offer, with every
  -- field that the service requires, a name, a target that is allowed, and a classification in the
  -- service's range.
  pub record IsPermitted (project resource_type name : String) (spec : Json) (reg : Registration F)
      (m : ServiceManifest F) : Type 0 where
    pub known : require_active registered project ≡ ok reg
    pub offered : get_service resource_type svc.catalog ≡ some m
    pub complete : All (λ f. is_present (get_value spec f) ≡ true) m.required_fields
    pub named : is_blank name ≡ false
    pub targeted : any (is_target (gate_cloud svc spec) (gate_account svc spec)) svc.allowed ≡ true
    pub ranked :
        (leb (rank_or (floor_of m spec) 0) (class_rank reg.classification)
          && leb (class_rank reg.classification) (rank_or m.classification_max 3))
        ≡ true

require_fields_sound :
    (id : String) (spec : Json) (names : List String)
    → require_fields id spec names ≡ ok tt
    → All (λ f. is_present (get_value spec f) ≡ true) names
require_fields_sound id spec [] h = tt
require_fields_sound id spec (f ∷ names) h =
    let (a, b) = >>-eq-ok _ _ tt h in
    (ensure-eq-ok (is_present (get_value spec f)) _ a, require_fields_sound id spec names b)

tier_gate_sound : (o : Option String) → tier_gate o ≡ ok tt → is_some o ≡ false
tier_gate_sound none h = refl
tier_gate_sound (some reason) h = cc

map_err-eq-ok :
    {E E' A : Type 0} (f : E → E') (r : Result E A) (a : A) → map_err f r ≡ ok a → r ≡ ok a
map_err-eq-ok f (err e) a h = cc
map_err-eq-ok f (ok b) a h = cc

false-not : (b : Bool) → false ≡ not b → b ≡ true
false-not b h = ground arith

require_fields_complete :
    (id : String) (spec : Json) (names : List String)
    → All (λ f. is_present (get_value spec f) ≡ true) names
    → require_fields id spec names ≡ ok tt
require_fields_complete id spec [] h = refl
require_fields_complete id spec (f ∷ names) (h, hs) =
    rw (h, require_fields_complete id spec names hs) refl

tier_gate_complete : (o : Option String) → is_some o ≡ false → tier_gate o ≡ ok tt
tier_gate_complete none h = refl
tier_gate_complete (some reason) h = cc

module _ {F : Float} (svc : Service F) (registered : String → Option (Registration F)) where
  fields_sound :
      (resource_type : String) (spec : Json) (m : ServiceManifest F)
      → get_service resource_type svc.catalog ≡ some m
      → validate_spec resource_type spec svc.catalog ≡ ok tt
      → All (λ f. is_present (get_value spec f) ≡ true) m.required_fields
  unfolding validate_spec
  fields_sound resource_type spec m offered h =
      require_fields_sound resource_type spec m.required_fields (
        subst
          (λ o.
            (ok_or o (unsupported resource_type) >>= λ n.
            require_fields resource_type spec n.required_fields)
            ≡ ok tt)
          offered h)

  checks-IsPermitted :
      (project resource_type name : String) (spec : Json) (reg : Registration F)
      (m : ServiceManifest F)
      → require_active registered project ≡ ok reg
      → get_service resource_type svc.catalog ≡ some m
      → checks svc reg m resource_type name spec ≡ ok tt
      → IsPermitted svc registered project resource_type name spec reg m
  checks-IsPermitted project resource_type name spec reg m known offered h =
      let (t3, tier) = >>-eq-ok _ _ tt h in
      let (t2, target) = >>-eq-ok _ _ tt t3 in
      let (t1, blank) = >>-eq-ok _ _ tt t2 in
      let free = tier_gate_sound _ tier in
      let range = (tier_violation-resolve m spec reg.classification).0 in
      record {
        known = known;
        offered = offered;
        complete = fields_sound resource_type spec m offered t1;
        named = true-not (is_blank name) (ensure-eq-ok _ _ blank);
        targeted = ensure-eq-ok _ _ target;
        ranked = false-not _ (sym free ∙ range);
      }

  pub admit-IsPermitted :
      (project resource_type name : String) (spec : Json) (reg : Registration F)
      (m : ServiceManifest F)
      → admit svc registered project resource_type name spec ≡ ok (reg, m)
      → IsPermitted svc registered project resource_type name spec reg m
  unfolding admit
  admit-IsPermitted project resource_type name spec reg m h =
      let (r, a, b) = >>=-eq-ok (map_err registry_failed (require_active registered project)) _ h in
      let (n, c, d) =
        >>=-eq-ok (ok_or (get_service resource_type svc.catalog) (unsupported resource_type)) _ b in
      let (tests, same) = after_test (checks svc r n resource_type name spec) (r, n) (reg, m) d in
      subst (λ p. IsPermitted svc registered project resource_type name spec p.0 p.1) same
        (checks-IsPermitted project resource_type name spec r n
          (map_err-eq-ok registry_failed _ r a) (ok_or-eq-ok _ _ c) tests)

  pub admit_complete :
      (project resource_type name : String) (spec : Json) (reg : Registration F)
      (m : ServiceManifest F)
      → IsPermitted svc registered project resource_type name spec reg m
      → admit svc registered project resource_type name spec ≡ ok (reg, m)
  unfolding admit validate_spec
  admit_complete project resource_type name spec reg m may =
      let range = (tier_violation-resolve m spec reg.classification).0 in
      let tier = tier_gate_complete _ (range ∙ ap not may.ranked) in
      let fields = require_fields_complete resource_type spec m.required_fields may.complete in
      rw (may.known, may.offered, fields, may.named, may.targeted, tier) refl
