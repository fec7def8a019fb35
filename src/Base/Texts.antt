-- ===== src/Base/Texts.antt =====
-- Texts: the functions of Rust's `str` that the code calls, over the native strings.
use Prim.Native.Char.{Char, code}
use Prim.Native.Nat.{ℕ, zero, suc}
use Prim.Native.String
use Prim.Native.String.{String}
use mathlib.Core.Bool.{Bool, true, false, ◌&&◌, ◌||◌}
use mathlib.Core.Option.{Option, none, some}
use mathlib.Core.List.{List, [], ◌∷◌}
use mathlib.Core.Path.{◌≡◌, refl, ap, ◌∙◌}
use mathlib.Core.Logic.{◌≢◌}
use text.Mathlib.Text.{◌==◌}
use text.Mathlib.TextEquality.{eq_iff}
use text.Mathlib.TextLemmas.{nil-append, cons-append}
use native.Mathlib.Omega.{arith}
use frontkeep.Base.Tests.{if◌then◌else◌, eqb}

-- `strip_prefix`
abbrev pub strip_prefix : String → String → Option String
strip_prefix s String.[] = some s
strip_prefix String.[] (String.◌∷◌ c p) = none
strip_prefix (String.◌∷◌ d s) (String.◌∷◌ c p) =
    if eqb (code d) (code c) then strip_prefix s p else none

-- `split_once` at one character: the text before it and the text after it.
abbrev pub split_once : String → ℕ → Option (String × String)
split_once String.[] at = none
split_once (String.◌∷◌ c s) at =
    let rest = split_once s at in
    if eqb (code c) at
    then some ("", s)
    else elim rest [ none ↦ none | some (k, r) ↦ some (String.◌∷◌ c k, r) ]

-- `join`
abbrev pub join : List String → String → String
join [] sep = ""
join (x ∷ []) sep = x
join (x ∷ y ∷ ys) sep = String.◌++◌ x (String.◌++◌ sep (join (y ∷ ys) sep))

abbrev pub ends_with : String → String → Bool
ends_with String.[] p = p == ""
ends_with (String.◌∷◌ c s) p = String.◌∷◌ c s == p || ends_with s p

-- White space, as `trim` sees it in ASCII.
abbrev pub is_space : ℕ → Bool
is_space c = eqb c b' ' || eqb c 9 || eqb c 10 || eqb c 11 || eqb c 12 || eqb c 13

-- `trim().is_empty()`
abbrev pub is_blank : String → Bool
is_blank String.[] = true
is_blank (String.◌∷◌ c s) = is_space (code c) && is_blank s

abbrev pub trim_start : String → String
trim_start String.[] = String.[]
trim_start (String.◌∷◌ c s) =
    let rest = trim_start s in if is_space (code c) then rest else String.◌∷◌ c s

abbrev pub trim_end : String → String
trim_end String.[] = String.[]
trim_end (String.◌∷◌ c s) =
    let rest = trim_end s in if is_space (code c) && rest == "" then "" else String.◌∷◌ c rest

-- `trim`
abbrev pub trim : String → String
trim s = trim_end (trim_start s)

-- `contains` of one character
abbrev pub has_char : String → ℕ → Bool
has_char String.[] at = false
has_char (String.◌∷◌ c s) at = eqb (code c) at || has_char s at

-- A split at the first of its kind gives the two parts back.
pub split_once-append :
    (k r : String) (c : Char)
    → has_char k (code c) ≡ false
    → split_once (String.◌++◌ k (String.◌∷◌ c r)) (code c) ≡ some (k, r)
split_once-append String.[] r c none_in = rw (nil-append (String.◌∷◌ c r)) (ground arith)
split_once-append (String.◌∷◌ d k) r c none_in =
    rw (cons-append d k (String.◌∷◌ c r)) (ground (arith, split_once-append k r c))

pub split_once-none : (s : String) (at : ℕ) → has_char s at ≡ false → split_once s at ≡ none
split_once-none String.[] at none_in = refl
split_once-none (String.◌∷◌ c s) at none_in = ground (arith, split_once-none s at)

-- `format!` of two pieces
abbrev pub concat : String → String → String
concat = String.◌++◌

-- `&s[..n]`, for ASCII texts
abbrev pub first_chars : ℕ → String → String
first_chars zero s = String.[]
first_chars (suc n) String.[] = String.[]
first_chars (suc n) (String.◌∷◌ c s) = String.◌∷◌ c (first_chars n s)

pub texts_differ : (s t : String) → (s == t) ≡ false → s ≢ t
texts_differ s t h e = ground (arith, eq_iff s t)

-- `format!` that starts with one character.
pub concat-one : (c : Char) (r : String) → concat (String.◌∷◌ c "") r ≡ String.◌∷◌ c r
concat-one c r = cons-append c "" r ∙ ap (String.◌∷◌ c) (nil-append r)
