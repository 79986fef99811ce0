-- ===== src/Prelude/Results.antt =====
-- Code that may throw: what it returns, or the error that leaves it.
use mathlib.Core.Path.{◌≡◌, refl}
use mathlib.Core.Bool.{Bool, true, false, ◌||◌, ◌&&◌}
use jehad_os.Prelude.Tests.{if◌then◌else◌}
use mathlib.Core.Option.{Option, none, some}
use mathlib.Core.Logic.{◌⊎◌, inl, inr}

pub data Result {ℓ κ} (Thrown : Type ℓ) (Value : Type κ) : Type (ℓ ⊔ κ) where
  err : (thrown : Thrown) → Result Thrown Value
  ok : (value : Value) → Result Thrown Value

module _ {ℓ κ μ} {Thrown : Type ℓ} {Value : Type κ} {Next : Type μ} where
  infixl 5 ◌>>=◌
  abbrev pub ◌>>=◌ :
      (first : Result Thrown Value) → (Value → Result Thrown Next) → Result Thrown Next
  err thrown >>= next = err thrown
  ok value >>= next = next value

  -- A chain that returns has returned at its first step.
  pub >>=-eq-ok :
      (first : Result Thrown Value) (next : Value → Result Thrown Next) {last : Next}
      → (first >>= next) ≡ ok last
      → (value : Value) × (first ≡ ok value) × (next value ≡ ok last)
  >>=-eq-ok (err thrown) next h = cc
  >>=-eq-ok (ok value) next h = (value, refl, h)

  pub >>=-ext :
      (first : Result Thrown Value) {next other : Value → Result Thrown Next}
      → ((value : Value) → next value ≡ other value)
      → (first >>= next) ≡ (first >>= other)
  >>=-ext (err thrown) same = refl
  >>=-ext (ok value) same = same value

-- `if (bad) throw thrown`
abbrev pub throw_if {ℓ} : {Thrown : Type ℓ} (bad : Bool) → Thrown → Result Thrown (Unit {0})
throw_if false thrown = ok tt
throw_if true thrown = err thrown

infixl 5 ◌>>◌
abbrev pub ◌>>◌ {ℓ μ} :
    {Thrown : Type ℓ} {Next : Type μ}
    → Result Thrown (Unit {0})
    → Result Thrown Next
    → Result Thrown Next
check >> rest = check >>= λ _. rest

-- `null` and `undefined` passed on.
module _ {ℓ κ} {Value : Type ℓ} {Next : Type κ} where
  abbrev pub and_then : Option Value → (Value → Option Next) → Option Next
  and_then none next = none
  and_then (some value) next = next value

  abbrev pub map_some : (Value → Next) → Option Value → Option Next
  map_some change none = none
  map_some change (some value) = some (change value)

  pub and_then-eq-some :
      (first : Option Value) (next : Value → Option Next) {last : Next}
      → and_then first next ≡ some last
      → (value : Value) × (first ≡ some value) × (next value ≡ some last)
  and_then-eq-some none next h = cc
  and_then-eq-some (some value) next h = (value, refl, h)

  pub map_some-eq-some :
      (change : Value → Next) (first : Option Value) {last : Next}
      → map_some change first ≡ some last
      → (value : Value) × (first ≡ some value) × (change value ≡ last)
  map_some-eq-some change none h = cc
  map_some-eq-some change (some value) h = (value, refl, cc)

pub &&-eq-true : (a b : Bool) → (a && b) ≡ true → (a ≡ true) × (b ≡ true)
&&-eq-true true b h = (refl, h)
&&-eq-true false b h = cc

pub and_false : (b : Bool) → (b && false) ≡ false
and_false true = refl
and_false false = refl

pub ||-eq-true : (a b : Bool) → (a || b) ≡ true → (a ≡ true) ⊎ (b ≡ true)
||-eq-true true b h = inl refl
||-eq-true false b h = inr h

module _ {ℓ} {Value : Type ℓ} where
  pub if_some-cases {κ} :
      (b : Bool) {first second : Option Value} {value : Value} {C : Type κ}
      → (if b then first else second) ≡ some value
      → (first ≡ some value → C)
      → (second ≡ some value → C)
      → C
  if_some-cases true h yes_ no_ = yes_ h
  if_some-cases false h yes_ no_ = no_ h

  pub if_none-eq-some :
      (b : Bool) {first : Option Value} {value : Value}
      → (if b then first else none) ≡ some value
      → (b ≡ true) × (first ≡ some value)
  if_none-eq-some true h = (refl, h)
  if_none-eq-some false h = cc
