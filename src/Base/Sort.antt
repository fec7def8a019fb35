-- ===== src/Base/Sort.antt =====
-- `ORDER BY key DESC` and `ORDER BY key` as stable insertion sorts. SQL leaves the order of equal keys open;
-- here they keep the order of the table.
use Prim.Native.Nat.{ℕ, zero, suc}
use mathlib.Core.Logic.{inl, inr}
use mathlib.Core.Path.{◌≡◌, refl}
use mathlib.Core.Bool.{Bool, true, false, ◌||◌}
use mathlib.Core.List.{List, [], ◌∷◌}
use native.Mathlib.Omega.{arith}
use frontkeep.Base.Tests.{if◌then◌else◌, leb, Bool-cases}
use frontkeep.Base.Lists.{length, any, All, take, All-take}

module _ {ℓ} {A : Type ℓ} (before : A → A → Bool) where
  abbrev pub insert_sorted : A → List A → List A
  insert_sorted x [] = x ∷ []
  insert_sorted x (y ∷ ys) = if before x y then x ∷ y ∷ ys else y ∷ insert_sorted x ys

  abbrev pub sort : List A → List A
  sort [] = []
  sort (x ∷ xs) = insert_sorted x (sort xs)

  pub length-insert_sorted : (x : A) (xs : List A) → length (insert_sorted x xs) ≡ suc (length xs)
  length-insert_sorted x [] = refl
  length-insert_sorted x (y ∷ ys) = ground (arith, length-insert_sorted x ys)

  pub length-sort : (xs : List A) → length (sort xs) ≡ length xs
  length-sort [] = refl
  length-sort (x ∷ xs) = omega (arith, length-insert_sorted x (sort xs), length-sort xs)

  any-insert_sorted :
      (p : A → Bool) (x : A) (xs : List A) → any p (insert_sorted x xs) ≡ (p x || any p xs)
  any-insert_sorted p x [] = refl
  any-insert_sorted p x (y ∷ ys) = ground (arith, any-insert_sorted p x ys)

  pub any-sort : (p : A → Bool) (xs : List A) → any p (sort xs) ≡ any p xs
  any-sort p [] = refl
  any-sort p (x ∷ xs) = ground (arith, any-insert_sorted p x (sort xs), any-sort p xs)

  module _ {κ} (P : A → Type κ) where
    All-insert_sorted : (x : A) (xs : List A) → P x → All P xs → All P (insert_sorted x xs)
    All-insert_sorted x [] p h = (p, tt)
    All-insert_sorted x (y ∷ ys) p (q, h) =
        elim (before x y) as (λ b. All P (if b then x ∷ y ∷ ys else y ∷ insert_sorted x ys)) [
          | true ↦ (p, (q, h))
          | false ↦ (q, All-insert_sorted x ys p h)
        ]

    pub All-sort : (xs : List A) → All P xs → All P (sort xs)
    All-sort [] h = tt
    All-sort (x ∷ xs) (p, h) = All-insert_sorted x (sort xs) p (All-sort xs h)

  -- Each element comes before all that follow it.
  abbrev pub IsSorted : List A → Type 0
  IsSorted [] = Unit
  IsSorted (x ∷ xs) = All (λ y. before x y ≡ true) xs × IsSorted xs

  All-before :
      (x y : A) (xs : List A)
      → ((a b c : A) → before a b ≡ true → before b c ≡ true → before a c ≡ true)
      → before x y ≡ true
      → All (λ z. before y z ≡ true) xs
      → All (λ z. before x z ≡ true) xs
  All-before x y [] trans h hs = tt
  All-before x y (z ∷ xs) trans h (h1, hs) = (trans x y z h h1, All-before x y xs trans h hs)

  insert_sorted-IsSorted :
      (x : A) (xs : List A)
      → ((a b c : A) → before a b ≡ true → before b c ≡ true → before a c ≡ true)
      → ((a b : A) → before a b ≡ false → before b a ≡ true)
      → IsSorted xs
      → IsSorted (insert_sorted x xs)
  insert_sorted-IsSorted x [] trans total h = (tt, tt)
  insert_sorted-IsSorted x (y ∷ ys) trans total (h, hs) = elim (Bool-cases (before x y)) [
    | inl first ↦ rw first ((first, All-before x y ys trans first h), (h, hs))
    | inr later ↦ rw later (
      All-insert_sorted (λ z. before y z ≡ true) x ys (total x y later) h,
      insert_sorted-IsSorted x ys trans total hs,
    )
  ]

  pub sort-IsSorted :
      (xs : List A)
      → ((a b c : A) → before a b ≡ true → before b c ≡ true → before a c ≡ true)
      → ((a b : A) → before a b ≡ false → before b a ≡ true)
      → IsSorted (sort xs)
  sort-IsSorted [] trans total = tt
  sort-IsSorted (x ∷ xs) trans total =
      insert_sorted-IsSorted x (sort xs) trans total (sort-IsSorted xs trans total)

  pub take-IsSorted : (n : ℕ) (xs : List A) → IsSorted xs → IsSorted (take n xs)
  take-IsSorted zero xs h = tt
  take-IsSorted (suc n) [] h = tt
  take-IsSorted (suc n) (x ∷ xs) (h, hs) =
      (All-take (λ y. before x y ≡ true) n xs h, take-IsSorted n xs hs)

abbrev pub newest_first {ℓ} : {A : Type ℓ} → (A → ℕ) → A → A → Bool
newest_first key x y = leb (key y) (key x)

abbrev pub oldest_first {ℓ} : {A : Type ℓ} → (A → ℕ) → A → A → Bool
oldest_first key x y = leb (key x) (key y)

pub newest_first-sort {ℓ} :
    {A : Type ℓ} (key : A → ℕ) (xs : List A)
    → IsSorted (newest_first key) (sort (newest_first key) xs)
newest_first-sort key xs =
    sort-IsSorted (newest_first key) xs (λ a b c h k. ground arith) (λ a b h. ground arith)
