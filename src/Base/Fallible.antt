-- ===== src/Base/Fallible.antt =====
-- Fallible operations: Rust's `Result`, with `?` as bind.
use mathlib.Core.Path.{◌≡◌, refl}
use mathlib.Core.Logic.{◌⊎◌, inl, inr}
use mathlib.Core.Option.{Option, none, some}
use mathlib.Core.Bool.{Bool, true, false}

-- The error type comes first here; in Rust it is the second parameter.
pub data Result {ℓₑ ℓₐ} (Err : Type ℓₑ) (Ok : Type ℓₐ) : Type (ℓₑ ⊔ ℓₐ) where
  err : Err → Result Err Ok
  ok : Ok → Result Err Ok

-- `?`: an error ends the function, a value goes on.
infixl 5 ◌>>=◌ ◌>>◌
abbrev pub ◌>>=◌ {ℓₑ ℓₐ ℓₒ} :
    {Err : Type ℓₑ} {Ok : Type ℓₐ} {Out : Type ℓₒ}
    → Result Err Ok
    → (Ok → Result Err Out)
    → Result Err Out
err failure >>= next = err failure
ok value >>= next = next value

-- A test that gives no value.
abbrev pub ◌>>◌ {ℓₑ ℓₒ} :
    {Err : Type ℓₑ} {Out : Type ℓₒ} → Result Err (Unit {0}) → Result Err Out → Result Err Out
test >> rest = test >>= λ _. rest

-- `ok_or`
abbrev pub ok_or {ℓ κ} : {E : Type ℓ} {A : Type κ} → Option A → E → Result E A
ok_or none e = err e
ok_or (some a) e = ok a

abbrev pub ensure {ℓ} : {E : Type ℓ} → Bool → E → Result E (Unit {0})
ensure true e = ok tt
ensure false e = err e

-- The conversion that `?` makes between error types.
abbrev pub map_err {ℓ κ ι} :
    {E : Type ℓ} {F : Type κ} {A : Type ι} → (E → F) → Result E A → Result F A
map_err f (ok a) = ok a
map_err f (err e) = err (f e)

-- A chain that gives a value had one at its first step.
pub >>=-eq-ok {ℓₑ ℓₐ ℓₒ} :
    {Err : Type ℓₑ} {Ok : Type ℓₐ} {Out : Type ℓₒ} (first : Result Err Ok)
    (next : Ok → Result Err Out) {out : Out}
    → (first >>= next) ≡ ok out
    → (value : Ok) × (first ≡ ok value) × (next value ≡ ok out)
>>=-eq-ok (err failure) next chain = cc
>>=-eq-ok (ok value) next chain = (value, refl, chain)

pub ok_or-eq-ok {ℓ κ} :
    {E : Type ℓ} {A : Type κ} (o : Option A) (e : E) {a : A} → ok_or o e ≡ ok a → o ≡ some a
ok_or-eq-ok none e h = cc
ok_or-eq-ok (some b) e h = cc

-- `is_ok`
abbrev pub is_ok {ℓₑ ℓₐ} : {Err : Type ℓₑ} {Ok : Type ℓₐ} → Result Err Ok → Bool
is_ok (err failure) = false
is_ok (ok value) = true

pub >>-eq-ok :
    {E : Type 0} (first next : Result E (Unit {0})) (u : Unit {0})
    → (first >> next) ≡ ok u
    → (first ≡ ok tt) × (next ≡ ok tt)
>>-eq-ok (err e) next u h = cc
>>-eq-ok (ok v) next u h = (refl, h)

pub ensure-eq-ok : {E : Type 0} (b : Bool) (e : E) → ensure b e ≡ ok tt → b ≡ true
ensure-eq-ok false e h = cc
ensure-eq-ok true e h = refl

pub after_test :
    {A : Type 0} {E : Type 0} (v : Result E (Unit {0})) (a b : A)
    → (v >> ok a) ≡ ok b
    → (v ≡ ok tt) × (a ≡ b)
after_test (err e) a b h = cc
after_test (ok u) a b h = (refl, cc)

pub chain-eq :
    {A B : Type 0} {E : Type 0} (first : Result E B) (next : B → Result E A) (a : B) {b : A}
    → first ≡ ok a
    → next a ≡ ok b
    → (first >>= next) ≡ ok b
chain-eq first next a h h' = rw h h'

pub Result-cases :
    {E A : Type 0} (r : Result E A) → ((e : E) × (r ≡ err e)) ⊎ ((a : A) × (r ≡ ok a))
Result-cases (err e) = inl (e, refl)
Result-cases (ok a) = inr (a, refl)
