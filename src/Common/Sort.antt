-- ===== src/Common/Sort.antt =====
-- `sort.SliceStable` and `slices.SortFunc` by their result: the stable sort by a test `less`.
use mathlib.Core.Path.{◌≡◌, refl}
use mathlib.Core.Logic.{inl, inr}
use mathlib.Core.Bool.{Bool, true, false}
use mathlib.Core.List.{List, [], ◌∷◌, Perm}
use mathlib.Core.List.Perm
use native.Mathlib.Omega.{arith}
use qf.Common.Tests.{if◌then◌else◌, Bool-cases}
use qf.Common.Lists.{All}

module _ {ℓ} {A : Type ℓ} (less : A → A → Bool) where
  -- Before the first element that is not less than `x`.
  unfoldable pub sort_insert : A → List A → List A
  sort_insert x [] = x ∷ []
  sort_insert x (y ∷ ys) = if less y x then y ∷ sort_insert x ys else x ∷ y ∷ ys

  unfoldable pub sort_by : List A → List A
  unfolding sort_insert
  sort_by [] = []
  sort_by (x ∷ xs) = sort_insert x (sort_by xs)

  -- No later element is less than an earlier one.
  abbrev pub IsOrdered : List A → Type 0
  IsOrdered [] = Unit
  IsOrdered (x ∷ xs) = All (λ y. less y x ≡ false) xs × IsOrdered xs

  pub sort_insert-perm : (x : A) (xs : List A) → Perm (sort_insert x xs) (x ∷ xs)
  unfolding sort_insert
  sort_insert-perm x [] = Perm.refl (x ∷ [])
  sort_insert-perm x (y ∷ ys) = elim (Bool-cases (less y x)) [
    | inl e ↦ rw e (Perm.trans (Perm.cons y (sort_insert-perm x ys)) (Perm.swap x y ys))
    | inr e ↦ rw e (Perm.refl (x ∷ y ∷ ys))
  ]

  pub sort_by-perm : (xs : List A) → Perm (sort_by xs) xs
  unfolding sort_by
  sort_by-perm [] = Perm.refl []
  sort_by-perm (x ∷ xs) =
      Perm.trans (sort_insert-perm x (sort_by xs)) (Perm.cons x (sort_by-perm xs))

  All-sort_insert {κ} :
      (P : A → Type κ) (x : A) (xs : List A) → P x → All P xs → All P (sort_insert x xs)
  unfolding sort_insert
  All-sort_insert P x [] p h = (p, tt)
  All-sort_insert P x (y ∷ ys) p h = elim (Bool-cases (less y x)) [
    | inl e ↦ rw e (h.0, All-sort_insert P x ys p h.1)
    | inr e ↦ rw e (p, h)
  ]

  pub All-sort_by {κ} : (P : A → Type κ) (xs : List A) → All P xs → All P (sort_by xs)
  unfolding sort_by
  All-sort_by P [] h = tt
  All-sort_by P (x ∷ xs) h = All-sort_insert P x (sort_by xs) h.0 (All-sort_by P xs h.1)

  -- A list that is in order comes back as it is.
  pub sort_by_of_IsOrdered : (xs : List A) → IsOrdered xs → sort_by xs ≡ xs
  unfolding sort_by
  sort_by_of_IsOrdered [] h = refl
  sort_by_of_IsOrdered (x ∷ xs) h = rw (sort_by_of_IsOrdered xs h.1) (insert_first xs h.0)
    where
      insert_first : (ys : List A) → All (λ y. less y x ≡ false) ys → sort_insert x ys ≡ x ∷ ys
      insert_first [] k = refl
      insert_first (y ∷ ys) k = rw k.0

  -- Where `less` is a strict weak order, the result is in order.
  module _ (asymm : (a b : A) → less a b ≡ true → less b a ≡ false)
      (trans : (a b c : A) → less b a ≡ false → less c b ≡ false → less c a ≡ false) where
    All-trans :
        (x y : A) (ys : List A)
        → less y x ≡ false
        → All (λ z. less z y ≡ false) ys
        → All (λ z. less z x ≡ false) ys
    All-trans x y [] h k = tt
    All-trans x y (z ∷ zs) h k = (trans x y z h k.0, All-trans x y zs h k.1)

    sort_insert-IsOrdered : (x : A) (xs : List A) → IsOrdered xs → IsOrdered (sort_insert x xs)
    unfolding sort_insert
    sort_insert-IsOrdered x [] h = (tt, tt)
    sort_insert-IsOrdered x (y ∷ ys) h = elim (Bool-cases (less y x)) [
      | inl e ↦ rw e (
        All-sort_insert (λ z. less z y ≡ false) x ys (asymm y x e) h.0,
        sort_insert-IsOrdered x ys h.1,
      )
      | inr e ↦ rw e ((e, All-trans x y ys e h.0), h)
    ]

    pub sort_by-IsOrdered : (xs : List A) → IsOrdered (sort_by xs)
    unfolding sort_by
    sort_by-IsOrdered [] = tt
    sort_by-IsOrdered (x ∷ xs) = sort_insert-IsOrdered x (sort_by xs) (sort_by-IsOrdered xs)

-- The comparison by `less`, and among equals by `rest`.
abbrev pub then_by {ℓ} : {A : Type ℓ} → (A → A → Bool) → (A → A → Bool) → A → A → Bool
then_by less rest a b = if less a b then true else if less b a then false else rest a b

-- A strict weak order, as a test.
pub record IsStrict {ℓ} {A : Type ℓ} (less : A → A → Bool) : Type ℓ where
  pub asymm : (a b : A) → less a b ≡ true → less b a ≡ false
  pub trans : (a b c : A) → less b a ≡ false → less c b ≡ false → less c a ≡ false

module _ {ℓ} {A : Type ℓ} {less rest : A → A → Bool} (p : IsStrict less) (q : IsStrict rest) where
  then_by_asymm : (a b : A) → then_by less rest a b ≡ true → then_by less rest b a ≡ false
  then_by_asymm a b h = ground (arith, p.asymm a b, q.asymm a b)

  then_by_trans :
      (a b c : A)
      → then_by less rest b a ≡ false
      → then_by less rest c b ≡ false
      → then_by less rest c a ≡ false
  then_by_trans a b c h k =
      ground (arith, p.trans a b c, p.trans b c a, p.trans c a b, q.trans a b c)

  pub then_by-IsStrict : IsStrict (then_by less rest)
  then_by-IsStrict = record { asymm = then_by_asymm; trans = then_by_trans }
