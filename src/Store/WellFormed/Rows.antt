-- ===== src/Store/WellFormed/Rows.antt =====
-- Predicates of all rows, through the clauses of a statement.
use qf.Common.{◌≡◌, Bool, true, false, List, [], ◌∷◌, ◌++◌, All, Bool-cases, inl, inr, arith}
use qf.Common.Tables.{find_row, delete_where, update_where}
use qf.Store.{is_there}

module _ {A : Type 0} where
  pub is_there-append :
      (p : A → Bool) (xs ys : List A)
      → is_there (find_row p xs) ≡ true
      → is_there (find_row p (xs ++ ys)) ≡ true
  unfolding find_row
  is_there-append p [] ys h = let bad = h in cc
  is_there-append p (x ∷ xs) ys h = ground (arith, is_there-append p xs ys, h)

  pub is_there-update_where :
      (p q : A → Bool) (f : A → A) (xs : List A)
      → ((x : A) → p (f x) ≡ p x)
      → is_there (find_row p xs) ≡ true
      → is_there (find_row p (update_where q f xs)) ≡ true
  unfolding find_row update_where
  is_there-update_where p q f [] k h = h
  is_there-update_where p q f (x ∷ xs) k h =
      ground (arith, is_there-update_where p q f xs k, k x, h)

  pub is_there-delete_where :
      (p q : A → Bool) (xs : List A)
      → ((x : A) → p x ≡ true → q x ≡ false)
      → is_there (find_row p xs) ≡ true
      → is_there (find_row p (delete_where q xs)) ≡ true
  unfolding find_row delete_where
  is_there-delete_where p q [] k h = h
  is_there-delete_where p q (x ∷ xs) k h = ground (arith, is_there-delete_where p q xs k, k x, h)

  pub All-map_row : (P Q : A → Type 0) (xs : List A) → ((x : A) → P x → Q x) → All P xs → All Q xs
  All-map_row P Q [] f h = tt
  All-map_row P Q (x ∷ xs) f h = (f x h.0, All-map_row P Q xs f h.1)

  pub All-append_row :
      (P : A → Type 0) (xs : List A) (y : A) → All P xs → P y → All P (xs ++ y ∷ [])
  All-append_row P [] y h k = (k, tt)
  All-append_row P (x ∷ xs) y h k = (h.0, All-append_row P xs y h.1 k)

  pub All-update_where :
      (P : A → Type 0) (q : A → Bool) (f : A → A) (xs : List A)
      → ((x : A) → P x → P (f x))
      → All P xs
      → All P (update_where q f xs)
  unfolding update_where
  All-update_where P q f [] k h = tt
  All-update_where P q f (x ∷ xs) k h = elim (Bool-cases (q x)) [
    | inl e ↦ rw e (k x h.0, All-update_where P q f xs k h.1)
    | inr e ↦ rw e (h.0, All-update_where P q f xs k h.1)
  ]

  -- The rows that are left have not passed the test.
  pub All-delete_where :
      (P Q : A → Type 0) (q : A → Bool) (xs : List A)
      → ((x : A) → q x ≡ false → P x → Q x)
      → All P xs
      → All Q (delete_where q xs)
  unfolding delete_where
  All-delete_where P Q q [] k h = tt
  All-delete_where P Q q (x ∷ xs) k h = elim (Bool-cases (q x)) [
    | inl e ↦ rw e (All-delete_where P Q q xs k h.1)
    | inr e ↦ rw e (k x e h.0, All-delete_where P Q q xs k h.1)
  ]
