-- ===== src/Base/Results.antt =====
-- What a C++ function that may throw returns: a value, or the exception that it throws.
use mathlib.Core.Path.{◌≡◌, refl}
use mathlib.Core.Logic.{◌⊎◌, inl, inr}

pub data Result {ℓ κ} (Fault : Type ℓ) (Value : Type κ) : Type (ℓ ⊔ κ) where
  ok : Value → Result Fault Value
  raise : Fault → Result Fault Value

-- What follows a call runs unless the call throws.
infixl 5 ◌>>=◌
abbrev pub ◌>>=◌ {ℓ κ μ} :
    {Fault : Type ℓ} {A : Type κ} {B : Type μ}
    → Result Fault A
    → (A → Result Fault B)
    → Result Fault B
r >>= next = elim r [ ok a ↦ next a | raise fault ↦ raise fault ]

pub Result-cases {ℓ κ} :
    {Fault : Type ℓ} {Value : Type κ} (r : Result Fault Value)
    → ((e : Fault) × (r ≡ raise e)) ⊎ ((a : Value) × (r ≡ ok a))
Result-cases (ok a) = inr (a, refl)
Result-cases (raise e) = inl (e, refl)
