-- ===== src/Registry/Steps.antt =====
-- crates/registry/src/promotion.rs: the ladder of tiers.
use frontkeep.Base.{
  ℕ, zero, suc, ◌+◌, String, ◌≡◌, refl, subst, ◌↔◌, inl, inr, true, ◌||◌, some, List, [], ◌∷◌, ◌++◌,
  ◌==◌, eq_iff, arith, leb, Bool-cases, Option-cases, any-append, contains, unwrap_or, ok,
}
use frontkeep.Base.Json.{fields}
use frontkeep.Registry.Tiers.{
  classifications, position, nth, tier_rank, next_tier, validate_step, from_rank, required_through,
  ClassificationRequirements,
}

nth-position : (s : String) (xs : List String) (n : ℕ) → position s xs ≡ some n → nth n xs ≡ some s
nth-position s [] n h = cc
nth-position s (x ∷ xs) n h = elim (Bool-cases (x == s)) [
  | inl hit ↦ ground (arith, eq_iff x s)
  | inr miss ↦ elim (Option-cases (position s xs)) [
    | inl missing ↦ ground arith
    | inr (m, found) ↦ ground (arith, nth-position s xs m found)
  ]
]

-- The tier of a rank has that rank.
tier_rank-nth : (n : ℕ) (s : String) → nth n classifications ≡ some s → tier_rank s ≡ some n
unfolding tier_rank classifications
tier_rank-nth zero s h = subst (λ o. position (unwrap_or o "") classifications ≡ some 0) h refl
tier_rank-nth (suc zero) s h =
    subst (λ o. position (unwrap_or o "") classifications ≡ some 1) h refl
tier_rank-nth (suc (suc zero)) s h =
    subst (λ o. position (unwrap_or o "") classifications ≡ some 2) h refl
tier_rank-nth (suc (suc (suc zero))) s h =
    subst (λ o. position (unwrap_or o "") classifications ≡ some 3) h refl
tier_rank-nth (suc (suc (suc (suc n)))) s h = cc

-- A promotion step is valid exactly when its target is the tier that `next_tier` names.
validate_step_iff :
    (current target : String)
    → (validate_step current target ≡ ok tt) ↔ (next_tier current ≡ some target)
unfolding validate_step next_tier tier_rank
validate_step_iff current target = elim (Option-cases (tier_rank current)) [
  | inl unknown_tier ↦ (λ h. ground (arith, unknown_tier), λ h. ground (arith, unknown_tier))
  | inr (rank, found) ↦ (
    λ h. ground (arith, found, nth-position target classifications (rank + 1)),
    λ h. ground (arith, found, tier_rank-nth (rank + 1) target),
  )
]

contains-from_rank :
    (least rank : ℕ) (fields : List String) (name : String)
    → contains (from_rank least rank fields) name ≡ true
    → contains (from_rank least (rank + 1) fields) name ≡ true
contains-from_rank least rank fields name h = elim (Bool-cases (leb least rank)) [
  | inl low ↦ ground (arith, low)
  | inr high ↦ ground (arith, high)
]

contains-append :
    (xs ys : List String) (name : String)
    → contains (xs ++ ys) name ≡ (contains xs name || contains ys name)
contains-append xs ys name = any-append (λ x. x == name) xs ys

-- What a tier requires, the next tier requires too.
pub required_through-next_tier :
    (reqs : ClassificationRequirements) (current target name : String)
    → next_tier current ≡ some target
    → contains (required_through reqs current) name ≡ true
    → contains (required_through reqs target) name ≡ true
unfolding required_through next_tier
required_through-next_tier reqs current target name up listed =
    elim (Option-cases (tier_rank current)) [
      | inl unknown_tier ↦ ground (arith, unknown_tier)
      | inr (rank, found) ↦
          let a : ℕ → List String = λ r. from_rank 1 r reqs.light in
          let b : ℕ → List String = λ r. from_rank 2 r reqs.wide in
          let c : ℕ → List String = λ r. from_rank 3 r reqs.critical in
          ground (
            arith,
            found,
            tier_rank-nth (rank + 1) target,
            contains-append (a rank ++ b rank) (c rank) name,
            contains-append (a rank) (b rank) name,
            contains-append (a (rank + 1) ++ b (rank + 1)) (c (rank + 1)) name,
            contains-append (a (rank + 1)) (b (rank + 1)) name,
            contains-from_rank 1 rank reqs.light name,
            contains-from_rank 2 rank reqs.wide name,
            contains-from_rank 3 rank reqs.critical name,
          )
    ]
