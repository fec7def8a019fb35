-- ===== src/Policy/FailClosed.antt =====
-- crates/policy/src/cedar_engine.rs: what the engine allows, and what it asks a person for.
use frontkeep.Base.{
  String, ◌≡◌, refl, ◌↔◌, true, Option, none, some, List, [], ◌∷◌, arith, map_err, >>=-eq-ok,
  Result, err, ok,
}
use frontkeep.Policy.Cedar.{
  to_uid, action_uid, obligations_of, decision, evaluate, or_deny, cedar_engine, Cedar, PolicyError,
  context, request,
}
use frontkeep.Policy.Engine.{allowed, requires_approval, PolicyRequest, Decision}

map_err-eq-ok {ℓ κ ι} :
    {E : Type ℓ} {E' : Type κ} {A : Type ι} (f : E → E') (r : Result E A) (a : A)
    → map_err f r ≡ ok a
    → r ≡ ok a
map_err-eq-ok f (ok b) a h = cc
map_err-eq-ok f (err e) a h = cc

module _ (c : Cedar) where
  -- A request of the policy interface is put to Cedar as this one.
  abbrev pub IsAsked : PolicyRequest → c.CedarRequest → Type 0
  IsAsked req r =
      (principal : c.EntityUid) × (action : c.EntityUid) × (resource : c.EntityUid)
      × (ctx : c.Context) × (to_uid c req.principal ≡ ok principal)
      × (action_uid c req.action ≡ ok action)
      × (to_uid c req.resource ≡ ok resource)
      × (c.from_json_value req.context ≡ ok ctx)
      × (c.new_request principal action resource ctx ≡ ok r)

  or_deny-allowed :
      (r : Result PolicyError Decision)
      → allowed (or_deny c r) ≡ true
      → (d : Decision) × (r ≡ ok d) × (allowed d ≡ true)
  or_deny-allowed (ok d) h = (d, refl, h)
  or_deny-allowed (err e) h = cc

  IsAsked-cedar_engine :
      (req : PolicyRequest) (r : c.CedarRequest)
      → IsAsked req r
      → cedar_engine c req ≡ decision c (c.is_authorized r)
  unfolding cedar_engine evaluate
  IsAsked-cedar_engine req r (p, a, s, x, hp, ha, hs, hx, hr) = rw (hp, ha, hs, hx, hr) refl

  -- The engine allows a request exactly when Cedar reads every part of it and Cedar's decision on
  -- the whole is Allow; whatever does not parse is denied.
  pub cedar_engine-allowed_iff :
      (req : PolicyRequest)
      → (allowed (cedar_engine c req) ≡ true)
        ↔ ((r : c.CedarRequest) × IsAsked req r × ((c.is_authorized r).is_allow ≡ true))
  unfolding cedar_engine evaluate
  cedar_engine-allowed_iff req = (
    λ h.
        let (d, made, granted) = or_deny-allowed (evaluate c req) h in
        let (p, hp, h1) = >>=-eq-ok (to_uid c req.principal) _ made in
        let (a, ha, h2) = >>=-eq-ok (action_uid c req.action) _ h1 in
        let (s, hs, h3) = >>=-eq-ok (to_uid c req.resource) _ h2 in
        let (x, hx, h4) = >>=-eq-ok (map_err context (c.from_json_value req.context)) _ h3 in
        let (r, hr, h5) = >>=-eq-ok (map_err request (c.new_request p a s x)) _ h4 in
        let asked : IsAsked req r =
          (p, a, s, x, hp, ha, hs, map_err-eq-ok context _ x hx, map_err-eq-ok request _ r hr) in
        (r, asked, ground (arith, granted, h5)),
    λ h. let (r, asked, granted) = h in ground (arith, IsAsked-cedar_engine req r asked, granted),
  )

  -- The first of the determining policies that has an approver, and its approver.
  abbrev pub first_annotated : List String → Option String
  first_annotated [] = none
  first_annotated (pid ∷ pids) =
      let rest = first_annotated pids in
      elim (c.policy pid) [ none ↦ rest | some none ↦ rest | some (some approver) ↦ some approver ]

  requires_approval-obligations_of :
      (d : Decision) (pids : List String)
      → requires_approval (record d { obligations = obligations_of c pids }) ≡ first_annotated pids
  requires_approval-obligations_of d [] = refl
  requires_approval-obligations_of d (pid ∷ pids) =
      ground (arith, requires_approval-obligations_of d pids)

  -- A request that Cedar decides needs the approval that the first annotated policy names, of those
  -- that determined the decision, and none where no such policy is annotated.
  pub cedar_engine-requires_approval :
      (req : PolicyRequest) (r : c.CedarRequest)
      → IsAsked req r
      → requires_approval (cedar_engine c req) ≡ first_annotated (c.is_authorized r).reason
  cedar_engine-requires_approval req r asked =
      rw (IsAsked-cedar_engine req r asked) (
        requires_approval-obligations_of (decision c (c.is_authorized r))
          (c.is_authorized r).reason)
