-- ===== src/Common/Results.antt =====
-- A Go function that returns `(T, error)`: a value or an error, chained by `do`.
use mathlib.Core.Path.{◌≡◌, refl}
use mathlib.Core.Logic.{◌⊎◌, inl, inr}
use mathlib.Core.Bool.{Bool, true, false}

pub data Result {ℓ κ} (E : Type κ) (A : Type ℓ) : Type (ℓ ⊔ κ) where
  ok : A → Result E A
  err : E → Result E A

infixl 5 ◌>>=◌ ◌>>◌
abbrev pub ◌>>=◌ {ℓ κ μ} :
    {E : Type μ} {A : Type ℓ} {B : Type κ} → Result E A → (A → Result E B) → Result E B
ok a >>= f = f a
err e >>= f = err e

abbrev pub ◌>>◌ {ℓ μ} : {E : Type μ} {B : Type ℓ} → Result E (Unit {0}) → Result E B → Result E B
m >> k = m >>= λ _. k

-- `if test { return e }`.
abbrev pub fail_if {μ} : {E : Type μ} → Bool → E → Result E (Unit {0})
fail_if true e = err e
fail_if false e = ok tt

-- The error under which the caller wraps it.
abbrev pub map_err {ℓ κ μ} :
    {E : Type μ} {F : Type κ} {A : Type ℓ} → (E → F) → Result E A → Result F A
map_err f (ok a) = ok a
map_err f (err e) = err (f e)

pub Result-cases {ℓ μ} :
    {E : Type μ} {A : Type ℓ} (r : Result E A) → ((a : A) × (r ≡ ok a)) ⊎ ((e : E) × (r ≡ err e))
Result-cases (ok a) = inl (a, refl)
Result-cases (err e) = inr (e, refl)

pub ok_injective {ℓ μ} :
    {E : Type μ} {A : Type ℓ} {a b : A} → ◌≡◌ {A = Result E A} (ok a) (ok b) → a ≡ b
ok_injective h = cc

-- What a chain that returns a value has done in its first step.
module _ {ℓ κ μ} {E : Type μ} {A : Type ℓ} {B : Type κ} (next : A → Result E B) where
  pub >>=-eq-ok :
      (first : Result E A) {y : B}
      → first >>= next ≡ ok y
      → (x : A) × (first ≡ ok x) × (next x ≡ ok y)
  >>=-eq-ok (ok x) h = (x, refl, h)
  >>=-eq-ok (err e) h = cc
