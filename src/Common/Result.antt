-- ===== src/Common/Result.antt =====
-- Go's pair of a value and an error: the value where the error is nil, else the error.
use mathlib.Core.Path.{◌≡◌, refl}
use mathlib.Core.Logic.{◌⊎◌, inl, inr}
use mathlib.Core.Bool.{Bool, true, false}
use mathlib.Core.Option.{Option, none, some}

pub data Result {ℓ κ} (E : Type κ) (A : Type ℓ) : Type (ℓ ⊔ κ) where
  ok : A → Result E A
  err : E → Result E A

-- `if bad { return err }`
abbrev pub reject {μ} : {E : Type μ} → Bool → E → Result E (Unit {0})
reject true e = err e
reject false e = ok tt

infixl 5 ◌>>=◌
abbrev pub ◌>>=◌ {ℓ κ μ} :
    {E : Type μ} {A : Type ℓ} {B : Type κ} → Result E A → (A → Result E B) → Result E B
err e >>= next = err e
ok a >>= next = next a

-- A missing value is the error `e`.
abbrev pub need {ℓ μ} : {E : Type μ} {A : Type ℓ} → E → Option A → Result E A
need e none = err e
need e (some a) = ok a

-- The second call is made where the first reported nothing.
infixl 5 ◌>>◌
abbrev pub ◌>>◌ {κ μ} : {E : Type μ} {B : Type κ} → Result E (Unit {0}) → Result E B → Result E B
done >> next = done >>= λ _. next

-- The code that hands on a callee's error in its own words.
abbrev pub wrap {ℓ κ μ} : {D : Type κ} {E : Type μ} {A : Type ℓ} → (D → E) → Result D A → Result E A
wrap f (ok a) = ok a
wrap f (err d) = err (f d)

pub ok-injective {ℓ κ} :
    {E : Type κ} {A : Type ℓ} {a b : A} → ◌≡◌ {A = Result E A} (ok a) (ok b) → a ≡ b
ok-injective {a} p = λ k. elim (p k) [ ok x ↦ x | err _ ↦ a ]

-- To split on a computed result and keep the equation.
pub Result-cases {ℓ κ} :
    {E : Type κ} {A : Type ℓ} (r : Result E A) → ((a : A) × (r ≡ ok a)) ⊎ ((e : E) × (r ≡ err e))
Result-cases (ok a) = inl (a, refl)
Result-cases (err e) = inr (e, refl)
