-- ===== src/Prelude/Results.antt =====
-- The outcome of code that throws: its value, or what it has thrown.
use mathlib.Core.Path.{◌≡◌, refl}
use mathlib.Core.Bool.{Bool, true, false}

pub data Result {ℓ κ} (Thrown : Type κ) (Value : Type ℓ) : Type (ℓ ⊔ κ) where
  err : Thrown → Result Thrown Value
  ok : Value → Result Thrown Value

-- `if (!holds) throw thrown;`
abbrev pub guard {κ} : {Thrown : Type κ} → Bool → Thrown → Result Thrown (Unit {0})
guard holds thrown = elim holds [ false ↦ err thrown | true ↦ ok tt ]

module _ {ℓ κ ι} {Thrown : Type κ} {Value : Type ℓ} {Next : Type ι} where
  infixl 5 ◌>>=◌ ◌>>◌
  -- The rest of a function behind a call: it runs only where the call has not thrown.
  abbrev pub ◌>>=◌ : Result Thrown Value → (Value → Result Thrown Next) → Result Thrown Next
  err thrown >>= rest = err thrown
  ok value >>= rest = rest value

  abbrev pub ◌>>◌ : Result Thrown Value → Result Thrown Next → Result Thrown Next
  call >> rest = call >>= λ ignored. rest

  pub >>=-eq-ok :
      (call : Result Thrown Value) (rest : Value → Result Thrown Next) {next : Next}
      → (call >>= rest) ≡ ok next
      → (value : Value) × (call ≡ ok value) × (rest value ≡ ok next)
  >>=-eq-ok (err thrown) rest returned = cc
  >>=-eq-ok (ok value) rest returned = (value, refl, returned)

pub ok-injective {ℓ κ} :
    {Thrown : Type κ} {Value : Type ℓ} {x y : Value}
    → ◌≡◌ {A = Result Thrown Value} (ok x) (ok y)
    → x ≡ y
ok-injective same = cc
