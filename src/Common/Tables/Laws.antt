-- ===== src/Common/Tables/Laws.antt =====
-- How the clauses of a statement combine.
use mathlib.Core.Path.{◌≡◌, refl, ap, ◌∙◌}
use mathlib.Core.Logic.{inl, inr}
use mathlib.Core.Bool.{Bool, true, false}
use mathlib.Core.Option.{some}
use mathlib.Core.List.{List, [], ◌∷◌, ◌++◌}
use native.Mathlib.Omega.{arith}
use qf.Common.Tests.{if◌then◌else◌, Bool-cases}
use qf.Common.Lists.{All}
use qf.Common.Tables.{find_row, rows_where, delete_where, update_where}

module _ {A : Type 0} where
  pub rows_where-append :
      (p : A → Bool) (xs ys : List A) → rows_where p (xs ++ ys) ≡ rows_where p xs ++ rows_where p ys
  unfolding rows_where
  rows_where-append p [] ys = refl
  rows_where-append p (x ∷ xs) ys = ground (arith, rows_where-append p xs ys)

  -- Tests that agree on the rows delete the same ones.
  pub delete_where-congr :
      (p q : A → Bool) (xs : List A)
      → All (λ x. p x ≡ q x) xs
      → delete_where p xs ≡ delete_where q xs
  unfolding delete_where
  delete_where-congr p q [] h = refl
  delete_where-congr p q (x ∷ xs) h = ground (arith, delete_where-congr p q xs h.1, h.0)

  pub delete_where-delete_where :
      (p q : A → Bool) (xs : List A)
      → delete_where p (delete_where q xs) ≡ delete_where (λ x. if q x then true else p x) xs
  unfolding delete_where
  delete_where-delete_where p q [] = refl
  delete_where-delete_where p q (x ∷ xs) = ground (arith, delete_where-delete_where p q xs)

  pub delete_where_none : (xs : List A) → delete_where (λ x. false) xs ≡ xs
  unfolding delete_where
  delete_where_none [] = refl
  delete_where_none (x ∷ xs) = ap (◌∷◌ x) (delete_where_none xs)

  pub rows_where-delete_where_self :
      (p : A → Bool) (xs : List A) → rows_where p (delete_where p xs) ≡ []
  unfolding rows_where delete_where
  rows_where-delete_where_self p [] = refl
  rows_where-delete_where_self p (x ∷ xs) = elim (Bool-cases (p x)) [
    | inl e ↦ rw e (rows_where-delete_where_self p xs)
    | inr e ↦ rw (e, e) (rows_where-delete_where_self p xs)
  ]

  -- Rows that the DELETE does not test for stay.
  pub rows_where-delete_where :
      (p q : A → Bool) (xs : List A)
      → ((x : A) → p x ≡ true → q x ≡ false)
      → rows_where p (delete_where q xs) ≡ rows_where p xs
  unfolding rows_where delete_where
  rows_where-delete_where p q [] h = refl
  rows_where-delete_where p q (x ∷ xs) h = ground (arith, rows_where-delete_where p q xs h, h x)

  pub rows_where_all :
      (p : A → Bool) (xs : List A) → All (λ x. p x ≡ true) xs → rows_where p xs ≡ xs
  unfolding rows_where
  rows_where_all p [] h = refl
  rows_where_all p (x ∷ xs) h = rw h.0 (ap (◌∷◌ x) (rows_where_all p xs h.1))

  pub rows_where_none :
      (p : A → Bool) (xs : List A) → All (λ x. p x ≡ false) xs → rows_where p xs ≡ []
  unfolding rows_where
  rows_where_none p [] h = refl
  rows_where_none p (x ∷ xs) h = rw h.0 (rows_where_none p xs h.1)

  -- An UPDATE that keeps the columns of another test.
  pub find_row-update_where :
      (p q : A → Bool) (f : A → A) (xs : List A)
      → ((x : A) → p (f x) ≡ p x)
      → ((x : A) → p x ≡ true → q x ≡ false)
      → find_row p (update_where q f xs) ≡ find_row p xs
  unfolding find_row update_where
  find_row-update_where p q f [] h k = refl
  find_row-update_where p q f (x ∷ xs) h k =
      ground (arith, find_row-update_where p q f xs h k, h x, k x)

  pub find_row-update_where_self :
      (p : A → Bool) (f : A → A) (xs : List A) (a : A)
      → ((x : A) → p (f x) ≡ p x)
      → find_row p xs ≡ some a
      → find_row p (update_where p f xs) ≡ some (f a)
  unfolding find_row update_where
  find_row-update_where_self p f [] a h k = cc
  find_row-update_where_self p f (x ∷ xs) a h k = elim (Bool-cases (p x)) [
    | inl e ↦ let here = rw e at k in rw (e, h x ∙ e) (ground (arith, here))
    | inr e ↦ let there = rw e at k in rw (e, e) (find_row-update_where_self p f xs a h there)
  ]
