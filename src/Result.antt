-- ===== src/Result.antt =====
-- Calls that return a value or raise, for all modules. `Raised` is the type of what is raised.
use build_engine.Prelude.{Bool, true, false, ◌≡◌, refl, ◌⊎◌, inl, inr}

pub data Result {κ ℓ} (Raised : Type κ) (Value : Type ℓ) : Type (κ ⊔ ℓ) where
  ok : Value → Result Raised Value
  err : Raised → Result Raised Value

infixl 5 ◌>>=◌ ◌>>◌
abbrev pub ◌>>=◌ {κ ℓ μ} :
    {X : Type κ} {V : Type ℓ} {W : Type μ} → Result X V → (V → Result X W) → Result X W
err x >>= next = err x
ok v >>= next = next v

abbrev pub ◌>>◌ {κ ℓ} : {X : Type κ} {V : Type ℓ} → Result X (Unit {0}) → Result X V → Result X V
first >> second = first >>= λ _. second

-- `if not b: raise e`.
abbrev pub require {ℓ} : {E : Type ℓ} → Bool → E → Result E (Unit {0})
require true e = ok tt
require false e = err e

-- Inversion of a chain that returned.
pub >>=-eq-ok {κ ℓ μ} :
    {X : Type κ} {V : Type ℓ} {W : Type μ} (call : Result X V) (next : V → Result X W) {w : W}
    → (call >>= next) ≡ ok w
    → (v : V) × (call ≡ ok v) × (next v ≡ ok w)
>>=-eq-ok (err x) next returned = cc
>>=-eq-ok (ok v) next returned = (v, refl, returned)

-- To split on a computed result and keep the equation.
pub Result-cases {κ ℓ} :
    {X : Type κ} {V : Type ℓ} (call : Result X V)
    → ((x : X) × (call ≡ err x)) ⊎ ((v : V) × (call ≡ ok v))
Result-cases (err x) = inl (x, refl)
Result-cases (ok v) = inr (v, refl)
