-- ===== src/Base/Json.antt =====
-- JSON values with the accessors that the program uses: `get`, here `get_value`, `as_str` and assignment to a key.
use Prim.Native.Nat.{ℕ}
use Prim.Native.String.{String}
use mathlib.Core.Path.{◌≡◌, refl}
use mathlib.Core.Bool.{Bool}
use mathlib.Core.Option.{Option, none, some}
use mathlib.Core.List.{List, [], ◌∷◌}
use native.Mathlib.Omega.{arith}
use text.Mathlib.Text.{◌==◌}
use text.Mathlib.TextEquality.{eq_iff}
use frontkeep.Base.Tests.{if◌then◌else◌}

mutual
  pub data Json : Type 0 where
    null : Json
    bool : Bool → Json
    number : ℕ → Json
    str : String → Json
    array : Items → Json
    object : Fields → Json

  pub data Items : Type 0 where
    no_items : Items
    item : Json → Items → Items

  pub data Fields : Type 0 where
    no_fields : Fields
    kv : String → Json → Fields → Fields

abbrev pub texts : List String → Items
texts [] = no_items
texts (x ∷ xs) = item (str x) (texts xs)

abbrev pub fields : List (String × Json) → Fields
fields [] = no_fields
fields ((k, v) ∷ kvs) = kv k v (fields kvs)

abbrev pub json : List (String × Json) → Json
json kvs = object (fields kvs)

abbrev pub get_field : Fields → String → Option Json
get_field no_fields key = none
get_field (kv k v fs) key = if k == key then some v else get_field fs key

abbrev pub get_value : Json → String → Option Json
get_value (object fs) key = get_field fs key
get_value _ key = none

abbrev pub as_str : Option Json → Option String
as_str (some (str s)) = some s
as_str _ = none

abbrev pub get_str : Json → String → Option String
get_str v key = as_str (get_value v key)

abbrev pub set_field : Fields → String → Json → Fields
set_field no_fields key w = kv key w no_fields
set_field (kv k v fs) key w = if k == key then kv key w fs else kv k v (set_field fs key w)

-- `map.insert(key, value)` on an object; any other value is left alone.
abbrev pub set_key : Json → String → Json → Json
set_key (object fs) key w = object (set_field fs key w)
set_key v key w = v

pub get_field-set_field :
    (fs : Fields) (key other : String) (w : Json)
    → get_field (set_field fs key w) other ≡ (if key == other then some w else get_field fs other)
get_field-set_field no_fields key other w = refl
get_field-set_field (kv k v fs) key other w =
    ground
      (arith, eq_iff k key, eq_iff k other, eq_iff key other, get_field-set_field fs key other w)
