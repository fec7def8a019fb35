-- ===== src/Base/Maps.antt =====
-- Maps with text keys, as association lists in which a key stands once.
use Prim.Native.String.{String}
use mathlib.Core.Path.{◌≡◌}
use mathlib.Core.Option.{Option, none, some}
use mathlib.Core.List.{List, [], ◌∷◌}
use native.Mathlib.Omega.{arith}
use text.Mathlib.Text.{◌==◌}
use text.Mathlib.TextEquality.{eq_iff}
use frontkeep.Base.Tests.{if◌then◌else◌}

-- `HashMap` with text keys. Its order is not observed.
module _ {ℓ} {A : Type ℓ} where
  abbrev pub get_key : List (String × A) → String → Option A
  get_key [] key = none
  get_key ((k, a) ∷ kvs) key = if k == key then some a else get_key kvs key

  abbrev pub insert_key : List (String × A) → String → A → List (String × A)
  insert_key [] key a = (key, a) ∷ []
  insert_key ((k, b) ∷ kvs) key a =
      if k == key then (key, a) ∷ kvs else (k, b) ∷ insert_key kvs key a

  -- `entry(key).or_insert(a)`
  abbrev pub or_insert : List (String × A) → String → A → List (String × A)
  or_insert kvs key a = elim (get_key kvs key) [ some b ↦ kvs | none ↦ insert_key kvs key a ]

  pub get_key-insert_key :
      (kvs : List (String × A)) (key other : String) (a : A)
      → get_key (insert_key kvs key a) other ≡ (if other == key then some a else get_key kvs other)
  get_key-insert_key [] key other a = ground (arith, eq_iff other key, eq_iff key other)
  get_key-insert_key ((k, b) ∷ kvs) key other a = ground (
    arith,
    get_key-insert_key kvs key other a,
    eq_iff other key,
    eq_iff key other,
    eq_iff k key,
    eq_iff k other,
  )
