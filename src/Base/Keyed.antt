-- ===== src/Base/Keyed.antt =====
-- Tables with a text key: selects, updates, inserts and deletes by key.
use Prim.Native.String.{String}
use mathlib.Core.Path.{◌≡◌, refl, subst}
use mathlib.Core.Bool.{Bool, false, ◌&&◌}
use mathlib.Core.Option
use mathlib.Core.Option.{Option, none, some}
use mathlib.Core.List.{List, [], ◌∷◌, ◌++◌}
use native.Mathlib.Omega.{arith}
use text.Mathlib.Text.{◌==◌}
use text.Mathlib.TextEquality.{eq_iff}
use mathlib.Core.Logic.{inl, inr}
use text.Mathlib.TextPositions.{eq_refl}
use frontkeep.Base.Tests.{if◌then◌else◌, eqb, Bool-cases}
use frontkeep.Base.Lists.{any, All}
use frontkeep.Base.Table.{rows_affected, find?, update_where, delete_where, find?-append}

-- A row that is there and passes a test.
abbrev pub is_hit {ℓ} : {A : Type ℓ} → (A → Bool) → Option A → Bool
is_hit q none = false
is_hit q (some x) = q x

module _ {ℓ} {A : Type ℓ} (key : A → String) where
  abbrev pub by_key : String → A → Bool
  by_key id x = key x == id

  -- The row of a key.
  abbrev pub row_of : String → List A → Option A
  row_of id xs = find? (by_key id) xs

  -- No two rows share a key.
  abbrev pub IsKeyed : List A → Type ℓ
  IsKeyed [] = Unit
  IsKeyed (x ∷ xs) = (row_of (key x) xs ≡ none) × IsKeyed xs

  pub row_of-update :
      (f : A → A) (id other : String) (xs : List A)
      → ((x : A) → key (f x) ≡ key x)
      → row_of other (update_where (by_key id) f xs)
        ≡ (if other == id then Option.map f (row_of id xs) else row_of other xs)
  row_of-update f id other [] h = ground arith
  row_of-update f id other (x ∷ xs) h = ground (
    arith,
    h x,
    row_of-update f id other xs h,
    eq_iff other id,
    eq_iff (key x) id,
    eq_iff (key x) other,
    eq_iff (key (f x)) other,
  )

  pub row_of-delete :
      (id other : String) (xs : List A)
      → row_of other (delete_where (by_key id) xs) ≡ (if other == id then none else row_of other xs)
  row_of-delete id other [] = ground arith
  row_of-delete id other (x ∷ xs) =
      ground
        (arith, row_of-delete id other xs, eq_iff other id, eq_iff (key x) id, eq_iff (key x) other)

  -- An insert under a key that no row has.
  pub row_of-insert :
      (x : A) (other : String) (xs : List A)
      → row_of (key x) xs ≡ none
      → row_of other (xs ++ x ∷ []) ≡ (if other == key x then some x else row_of other xs)
  row_of-insert x other xs fresh =
      ground
        (arith, find?-append (by_key other) xs (x ∷ []), eq_iff other (key x), eq_iff (key x) other)

  pub row_of-key : (id : String) (xs : List A) (x : A) → row_of id xs ≡ some x → key x ≡ id
  row_of-key id [] x e = cc
  row_of-key id (y ∷ xs) x e = ground (arith, row_of-key id xs x, eq_iff (key y) id)

  -- Statements that also test the row: `WHERE key = ? AND …`.
  module _ (p q : A → Bool) (id : String) (same : (x : A) → p x ≡ (key x == id && q x)) where
    pub row_of-update_if :
        (f : A → A) (other : String) (xs : List A)
        → ((x : A) → key (f x) ≡ key x)
        → row_of other (update_where p f xs) ≡ (
            if other == id
            then Option.map (λ x. if q x then f x else x) (row_of id xs)
            else row_of other xs)
    row_of-update_if f other [] h = ground arith
    row_of-update_if f other (x ∷ xs) h = ground (
      arith,
      h x,
      same x,
      row_of-update_if f other xs h,
      eq_iff other id,
      eq_iff (key x) id,
      eq_iff (key x) other,
      eq_iff (key (f x)) other,
    )

    absent-rows_affected : (xs : List A) → row_of id xs ≡ none → rows_affected p xs ≡ 0
    absent-rows_affected [] h = refl
    absent-rows_affected (x ∷ xs) h = ground (arith, same x, absent-rows_affected xs)

    -- Where the key is one, such a statement touches the row of the key if it passes the test.
    pub keyed-rows_affected :
        (xs : List A) → IsKeyed xs → (eqb (rows_affected p xs) 1) ≡ is_hit q (row_of id xs)
    keyed-rows_affected [] k = refl
    keyed-rows_affected (x ∷ xs) (free, k) =
        ground (arith, same x, absent-rows_affected xs, keyed-rows_affected xs k, eq_iff (key x) id)

  update_where-absent :
      (p : A → Bool) (f : A → A) (id : String) (xs : List A)
      → ((x : A) → key (f x) ≡ key x)
      → row_of id xs ≡ none
      → row_of id (update_where p f xs) ≡ none
  update_where-absent p f id [] h e = refl
  update_where-absent p f id (x ∷ xs) h e =
      ground (arith, h x, update_where-absent p f id xs h, eq_iff (key x) id, eq_iff (key (f x)) id)

  pub update_where-IsKeyed :
      (p : A → Bool) (f : A → A) (xs : List A)
      → ((x : A) → key (f x) ≡ key x)
      → IsKeyed xs
      → IsKeyed (update_where p f xs)
  update_where-IsKeyed p f [] h k = tt
  update_where-IsKeyed p f (x ∷ xs) h (free, k) = (
    subst (λ id. row_of id (update_where p f xs) ≡ none) {x = key x} (ground (arith, h x))
        (update_where-absent p f (key x) xs h free),
    update_where-IsKeyed p f xs h k,
  )

  pub append-IsKeyed :
      (x : A) (xs : List A) → row_of (key x) xs ≡ none → IsKeyed xs → IsKeyed (xs ++ x ∷ [])
  append-IsKeyed x [] fresh k = (refl, tt)
  append-IsKeyed x (y ∷ xs) fresh (free, k) = (
    ground (
      arith,
      fresh,
      find?-append (by_key (key y)) xs (x ∷ []),
      eq_iff (key y) (key x),
      eq_iff (key x) (key y),
    ),
    append-IsKeyed x xs (ground (arith, fresh)) k,
  )

  -- In a keyed table any row that a select finds is the row of its key.
  pub row_of-found :
      (p : A → Bool) (xs : List A) (x : A)
      → IsKeyed xs
      → find? p xs ≡ some x
      → row_of (key x) xs ≡ some x
  row_of-found p [] x k h = cc
  row_of-found p (y ∷ xs) x (free, k) h = elim (Bool-cases (p y)) [
    | inl hit ↦ ground (arith, hit, eq_refl (key y))
    | inr miss ↦ ground (arith, miss, row_of-found p xs x k, eq_iff (key y) (key x))
  ]

  any-absent :
      (q : A → Bool) (id : String) (xs : List A)
      → row_of id xs ≡ none
      → any (λ x. key x == id && q x) xs ≡ false
  any-absent q id [] h = refl
  any-absent q id (x ∷ xs) h = ground (arith, h, any-absent q id xs)

  -- In a keyed table, whether some row of a key passes a test is whether the row of the key does.
  pub any-keyed :
      (q : A → Bool) (id : String) (xs : List A)
      → IsKeyed xs
      → any (λ x. key x == id && q x) xs ≡ is_hit q (row_of id xs)
  any-keyed q id [] k = refl
  any-keyed q id (x ∷ xs) (free, k) =
      ground (arith, free, any-absent q id xs, any-keyed q id xs k, eq_iff (key x) id)

  absent-All :
      (id : String) (x : A) (xs : List A) → row_of id xs ≡ none → All (λ y. key y ≡ id → y ≡ x) xs
  absent-All id x [] h = tt
  absent-All id x (y ∷ xs) h =
      (λ e. ground (arith, h, e, eq_iff (key y) id), absent-All id x xs (ground (arith, h)))

  -- In a keyed table only the row of a key has it.
  pub unique :
      (id : String) (x : A) (xs : List A)
      → IsKeyed xs
      → row_of id xs ≡ some x
      → All (λ y. key y ≡ id → y ≡ x) xs
  unique id x [] k h = tt
  unique id x (y ∷ xs) (free, k) h = elim (Bool-cases (key y == id)) [
    | inl same ↦ (
      λ e. ground (arith, h, same),
      absent-All id x xs (ground (arith, free, same, eq_iff (key y) id)),
    )
    | inr other ↦ (
      λ e. ground (arith, other, e, eq_iff (key y) id),
      unique id x xs k (ground (arith, h, other)),
    )
  ]

  found_later :
      (x : A) (xs ys : List A)
      → row_of (key x) xs ≡ none
      → All (λ y. row_of (key y) xs ≡ some y) ys
      → All (λ y. row_of (key y) (x ∷ xs) ≡ some y) ys
  found_later x xs [] free h = tt
  found_later x xs (y ∷ ys) free (here, there) =
      (ground (arith, free, here, eq_iff (key x) (key y)), found_later x xs ys free there)

  -- In a keyed table each row is the row of its key.
  pub All-found : (xs : List A) → IsKeyed xs → All (λ y. row_of (key y) xs ≡ some y) xs
  All-found [] k = tt
  All-found (x ∷ xs) (free, k) =
      (ground (arith, eq_refl (key x)), found_later x xs xs free (All-found xs k))
