-- ===== src/Registry/Verdicts.antt =====
-- crates/registry/src/promotion.rs: when a promotion may be approved by the machine.
use frontkeep.Base.{
  String, ◌≡◌, refl, Bool, true, false, not, ◌&&◌, ◌||◌, List, [], ◌∷◌, eq_iff, arith, keep,
  is_empty, contains, is_blank,
}
use frontkeep.Base.Float.{Float}
use frontkeep.Registry.Promotion.{
  auto_approvable, filled, signal, field_present, is_sensitive, is_reviewed, absent_paths, evaluate,
}
use frontkeep.Registry.Records.{Registration}
use frontkeep.Registry.Tiers.{required_through, ClassificationRequirements}

module _ {F : Float} where
  abbrev pub all_present : Registration F → List String → Bool
  all_present reg [] = true
  all_present reg (f ∷ fs) = field_present reg f && all_present reg fs

  missing-all_present :
      (reg : Registration F) (fs : List String)
      → is_empty (keep (λ f. not (field_present reg f)) fs) ≡ all_present reg fs
  missing-all_present reg [] = refl
  missing-all_present reg (f ∷ fs) = ground (arith, missing-all_present reg fs)

  -- A required field of a complete record is there.
  present-contains :
      (reg : Registration F) (fs : List String) (f : String)
      → all_present reg fs ≡ true
      → (contains fs f && not (field_present reg f)) ≡ false
  present-contains reg [] f h = refl
  present-contains reg (g ∷ fs) f h = ground (arith, present-contains reg fs f, eq_iff g f)

  absent_paths-empty :
      (reg : Registration F) (fs : List String)
      → all_present reg fs ≡ true
      → absent_paths reg fs ≡ signal (is_blank reg.owner) "owner"
  absent_paths-empty reg fs h = ground (
    arith,
    present-contains reg fs "team_or_org_of_record" h,
    present-contains reg fs "support_contact" h,
    present-contains reg fs "decommission_path" h,
  )

  -- The machine may approve exactly when every field that the target requires is there, sensitive
  -- data has a security review that is approved or waived, no stack exception is declared, and the
  -- project has an owner.
  pub evaluate-auto_approvable :
      (reg : Registration F) (target : String) (reqs : ClassificationRequirements)
      → auto_approvable (evaluate reg target reqs) ≡ (
          all_present reg (required_through reqs target)
          && (not (is_sensitive reg) || is_reviewed reg)
          && is_blank reg.evidence.stack_exception
          && filled reg.owner)
  unfolding evaluate
  evaluate-auto_approvable reg target reqs =
      let required = required_through reqs target in
      ground (arith, missing-all_present reg required, absent_paths-empty reg required)
