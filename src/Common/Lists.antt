-- ===== src/Common/Lists.antt =====
-- Lists measured and indexed by native numbers, and predicates over all their elements.
use Prim.Native.Nat.{ℕ, zero, suc, ◌+◌}
use mathlib.Core.Path.{◌≡◌, refl, ap, ◌∙◌}
use mathlib.Core.List.{List, [], ◌∷◌, ◌++◌, map}
use mathlib.Core.Option.{Option, none, some}
use native.Mathlib.Omega.{arith}

module _ {ℓ} {A : Type ℓ} where
  abbrev pub length : List A → ℕ
  length [] = 0
  length (x ∷ xs) = suc (length xs)

  abbrev pub get_elem? : List A → ℕ → Option A
  get_elem? [] i = none
  get_elem? (x ∷ xs) zero = some x
  get_elem? (x ∷ xs) (suc i) = get_elem? xs i

  abbrev pub take : ℕ → List A → List A
  take zero xs = []
  take (suc n) [] = []
  take (suc n) (x ∷ xs) = x ∷ take n xs

  abbrev pub drop : ℕ → List A → List A
  drop zero xs = xs
  drop (suc n) [] = []
  drop (suc n) (x ∷ xs) = drop n xs

  pub take-append-drop : (n : ℕ) (xs : List A) → take n xs ++ drop n xs ≡ xs
  take-append-drop zero xs = refl
  take-append-drop (suc n) [] = refl
  take-append-drop (suc n) (x ∷ xs) = ap (◌∷◌ x) (take-append-drop n xs)

  take_nil : (k : ℕ) → take k [] ++ [] ≡ []
  take_nil zero = refl
  take_nil (suc k) = refl

  -- The list from `n` on is its first `k` elements and the rest.
  pub take_at-append-drop :
      (k n : ℕ) (xs : List A) → take k (drop n xs) ++ drop (n + k) xs ≡ drop n xs
  take_at-append-drop k zero xs =
      let e : zero + k ≡ k = omega arith in
      ap (λ m. take k xs ++ drop m xs) e ∙ take-append-drop k xs
  take_at-append-drop k (suc n) [] =
      let e : suc n + k ≡ suc (n + k) = omega arith in
      ap (λ m. take k [] ++ drop m []) e ∙ take_nil k
  take_at-append-drop k (suc n) (x ∷ xs) =
      let e : suc n + k ≡ suc (n + k) = omega arith in
      ap (λ m. take k (drop n xs) ++ drop m (x ∷ xs)) e ∙ take_at-append-drop k n xs

  pub length-append : (xs ys : List A) → length (xs ++ ys) ≡ length xs + length ys
  length-append [] ys = omega arith
  length-append (x ∷ xs) ys = omega (arith, length-append xs ys)

  -- `P` holds of every element.
  abbrev pub All {κ} : (A → Type κ) → List A → Type κ
  All P [] = Unit
  All P (x ∷ xs) = P x × All P xs

pub length-map {ℓ κ} :
    {A : Type ℓ} {B : Type κ} (f : A → B) (xs : List A) → length (map f xs) ≡ length xs
length-map f [] = refl
length-map f (x ∷ xs) = ap suc (length-map f xs)

module _ {ℓ κ} {A : Type ℓ} (P : A → Type κ) where
  pub All-append : (xs ys : List A) → All P xs → All P ys → All P (xs ++ ys)
  All-append [] ys hx hy = hy
  All-append (x ∷ xs) ys hx hy = (hx.0, All-append xs ys hx.1 hy)

  pub All-take : (n : ℕ) (xs : List A) → All P xs → All P (take n xs)
  All-take zero xs h = tt
  All-take (suc n) [] h = tt
  All-take (suc n) (x ∷ xs) h = (h.0, All-take n xs h.1)

  pub All-drop : (n : ℕ) (xs : List A) → All P xs → All P (drop n xs)
  All-drop zero xs h = h
  All-drop (suc n) [] h = tt
  All-drop (suc n) (x ∷ xs) h = All-drop n xs h.1

-- A fixed-size array of length `n` that starts with `xs`, its other slots at `d`.
abbrev pub fill {ℓ} : {A : Type ℓ} → ℕ → A → List A → List A
fill zero d xs = []
fill (suc n) d [] = d ∷ fill n d []
fill (suc n) d (x ∷ xs) = x ∷ fill n d xs
