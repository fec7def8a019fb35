-- ===== src/Provision/TextSets.antt =====
-- crates/provision/src/lib.rs: the set of the keys whose outputs are secret.
use Prim.Native.Nat.{Ordering}
use Prim.Native.String.{compare}
use frontkeep.Base.{
  String, ◌≡◌, refl, inl, inr, false, ◌||◌, List, [], ◌∷◌, ◌==◌, eq_iff, arith, Bool-cases,
  contains,
}
use frontkeep.Provision.Apply.{place_text, text_set}

contains-place_text :
    (s key : String) (ts : List String)
    → contains (place_text s ts) key ≡ (s == key || contains ts key)
contains-place_text s key [] = refl
contains-place_text s key (t ∷ ts) =
    ground (arith, contains-place_text s key ts, eq_iff s t, eq_iff s key, eq_iff t key)

pub contains-text_set :
    (ss : List String) (key : String) → contains (text_set ss) key ≡ contains ss key
contains-text_set [] key = refl
contains-text_set (s ∷ ss) key =
    ground (arith, contains-place_text s key (text_set ss), contains-text_set ss key, eq_iff s key)

unfoldable pub IsDistinct : List String → Type 0
IsDistinct [] = Unit
IsDistinct (t ∷ ts) = (contains ts t ≡ false) × IsDistinct ts

place_text-IsDistinct :
    (s : String) (ts : List String)
    → contains ts s ≡ false
    → IsDistinct ts
    → IsDistinct (place_text s ts)
unfolding IsDistinct
place_text-IsDistinct s [] new d = (refl, tt)
place_text-IsDistinct s (t ∷ ts) new (here, rest) =
    let apart : (contains ts s ≡ false) × (contains (place_text s ts) t ≡ false) =
      ground (arith, new, here, contains-place_text s t ts, eq_iff t s, eq_iff s t) in
    let placed : (contains (place_text s ts) t ≡ false) × IsDistinct (place_text s ts) =
      (apart.1, place_text-IsDistinct s ts apart.0 rest) in
    elim (compare s t)
      as (λ x. IsDistinct (elim x [
        | Ordering.lt ↦ s ∷ t ∷ ts
        | Ordering.eq ↦ t ∷ place_text s ts
        | Ordering.gt ↦ t ∷ place_text s ts
      ])) [ Ordering.lt ↦ (new, (here, rest)) | Ordering.eq ↦ placed | Ordering.gt ↦ placed ]

pub text_set-IsDistinct : (ss : List String) → IsDistinct (text_set ss)
unfolding IsDistinct
text_set-IsDistinct [] = tt
text_set-IsDistinct (s ∷ ss) = elim (Bool-cases (contains (text_set ss) s)) [
  | inl old ↦ rw old (text_set-IsDistinct ss)
  | inr new ↦ rw new (place_text-IsDistinct s (text_set ss) new (text_set-IsDistinct ss))
]
