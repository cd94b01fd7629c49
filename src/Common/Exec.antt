-- ===== src/Common/Exec.antt =====
-- Go code that changes a state and may return early: the state comes back beside the error too.
use native.Mathlib.Omega.{arith}
use mathlib.Core.Bool.{Bool, true, false}
use qf.Common.Results.{Result, ok, err}
use mathlib.Core.Path.{◌≡◌, refl}

abbrev pub Exec : Type 0 → Type 0 → Type 0 → Type 0
Exec S E A = S → S × Result E A

module _ {S E A : Type 0} where
  unfoldable pub pure : A → Exec S E A
  pure a s = (s, ok a)

  unfoldable pub raise : E → Exec S E A
  raise e s = (s, err e)

  unfoldable pub lift : Result E A → Exec S E A
  lift r s = (s, r)

-- `a, err := f()`, where the error is not looked at: `d` is the value without it.
unfoldable pub or_value : {S E F A : Type 0} → A → Exec S E A → Exec S F A
or_value d m s = let (s', r) = m s in elim r [ ok a ↦ (s', ok a) | err e ↦ (s', ok d) ]

-- `if test { return e }`.
unfoldable pub raise_if : {S E : Type 0} → Bool → E → Exec S E (Unit {0})
raise_if true e s = (s, err e)
raise_if false e s = (s, ok tt)

module _ {S E A B : Type 0} where
  abbrev continue : (A → Exec S E B) → S → Result E A → S × Result E B
  continue f s (ok a) = f a s
  continue f s (err e) = (s, err e)

  infixl 5 ◌>>=◌ ◌>>◌
  unfoldable pub ◌>>=◌ : Exec S E A → (A → Exec S E B) → Exec S E B
  unfolding pure raise raise_if or_value lift
  ◌>>=◌ m f s = let (s', r) = m s in continue f s' r

  abbrev pub ◌>>◌ : Exec S E A → Exec S E B → Exec S E B
  m >> n = m >>= λ _. n

  -- A block that returns has returned in each of its steps.
  module _ (f : A → Exec S E B) where
    continue-eq-ok :
        (r : Result E A) (s t : S) {b : B}
        → continue f s r ≡ (t, ok b)
        → (a : A) × (r ≡ ok a) × (f a s ≡ (t, ok b))
    continue-eq-ok (ok a) s t h = (a, refl, h)
    continue-eq-ok (err e) s t h = cc

    pub bind-eq-ok :
        (m : Exec S E A) (s t : S) {b : B}
        → (m >>= f) s ≡ (t, ok b)
        → (u : S) × (a : A) × (m s ≡ (u, ok a)) × (f a u ≡ (t, ok b))
    unfolding ◌>>=◌
    bind-eq-ok m s t h =
        let (a, p, q) = continue-eq-ok (m s).1 (m s).0 t h in ((m s).0, a, ground arith, q)
