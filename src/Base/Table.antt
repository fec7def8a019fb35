-- ===== src/Base/Table.antt =====
-- A database table as the list of its rows, with the four statements that the code issues: a
-- `SELECT … WHERE` of one row, an `UPDATE … WHERE`, a `DELETE … WHERE` and the rows affected.
use Prim.Native.Nat.{ℕ, suc}
use mathlib.Core.Path.{◌≡◌, refl}
use mathlib.Core.Bool.{Bool, true, false}
use mathlib.Core.Option
use mathlib.Core.Option.{Option, none, some}
use mathlib.Core.List.{List, [], ◌∷◌, ◌++◌}
use native.Mathlib.Omega.{arith}
use frontkeep.Base.Tests.{if◌then◌else◌}

module _ {ℓ} {A : Type ℓ} where
  abbrev pub find? : (A → Bool) → List A → Option A
  find? p [] = none
  find? p (x ∷ xs) = if p x then some x else find? p xs

  abbrev pub update_where : (A → Bool) → (A → A) → List A → List A
  update_where p f [] = []
  update_where p f (x ∷ xs) = (if p x then f x else x) ∷ update_where p f xs

  abbrev pub delete_where : (A → Bool) → List A → List A
  delete_where p [] = []
  delete_where p (x ∷ xs) = if p x then delete_where p xs else x ∷ delete_where p xs

  abbrev pub rows_affected : (A → Bool) → List A → ℕ
  rows_affected p [] = 0
  rows_affected p (x ∷ xs) = if p x then suc (rows_affected p xs) else rows_affected p xs

  abbrev pub or_else : Option A → Option A → Option A
  or_else none o = o
  or_else (some a) o = some a

  -- A select after an update that keeps the selected column: the row found is the updated one.
  pub find?-update_where :
      (q p : A → Bool) (f : A → A) (xs : List A)
      → ((x : A) → q (f x) ≡ q x)
      → find? q (update_where p f xs) ≡ Option.map (λ x. if p x then f x else x) (find? q xs)
  find?-update_where q p f [] h = refl
  find?-update_where q p f (x ∷ xs) h = ground (arith, h x, find?-update_where q p f xs h)

  pub find?-append :
      (q : A → Bool) (xs ys : List A) → find? q (xs ++ ys) ≡ or_else (find? q xs) (find? q ys)
  find?-append q [] ys = refl
  find?-append q (x ∷ xs) ys = ground (arith, find?-append q xs ys)

  -- The row found satisfies the test.
  pub find?_sound : (q : A → Bool) (xs : List A) (x : A) → find? q xs ≡ some x → q x ≡ true
  find?_sound q [] x e = cc
  find?_sound q (y ∷ xs) x e = ground (arith, find?_sound q xs x)

  -- A row that an update takes out of its own condition is not updated again.
  pub rows_affected-update_where :
      (p : A → Bool) (f : A → A) (xs : List A)
      → ((x : A) → p (f x) ≡ false)
      → rows_affected p (update_where p f xs) ≡ 0
  rows_affected-update_where p f [] h = refl
  rows_affected-update_where p f (x ∷ xs) h =
      ground (arith, h x, rows_affected-update_where p f xs h)
