-- ===== src/Store/Laws.antt =====
-- What a statement and a transaction do to the tables.
use qf.Common.{
  ℕ, ◌+◌, ◌≡◌, refl, true, false, not, ◌&&◌, Option, none, some, Result, ok, err, Bool-cases,
  Result-cases, inl, inr, arith,
}
use qf.Common.Exec.{Exec, or_value}
use qf.Store.{Database, Tables, Store, StoreError, executed, statement, transaction, one}

-- A statement that only reads returns the tables that it was given.
abbrev pub Same : {A : Type 0} → Tables → Result StoreError (Tables × A) → Type 0
Same t (ok (u, a)) = u ≡ t
Same t (err e) = Unit

module _ {A : Type 0} (db : Database) (f : ℕ → Tables → Result StoreError (Tables × A)) where
  pub statement-eq-ok :
      (s t : Store) (a : A)
      → statement db f s ≡ (t, ok a)
      → (u : Tables) × (f s.statements s.tables ≡ ok (u, a)) × (t ≡ executed u s)
  unfolding statement
  statement-eq-ok s t a h = elim (Bool-cases (db.up s.statements && not s.aborted)) [
    | inr p ↦ let bad = rw p at h in cc
    | inl p ↦ elim (Result-cases (f s.statements s.tables)) [
      | inl ((u, b), q) ↦
          let done = rw (p, q) at h in (u, rw q (ground (arith, done)), ground (arith, done))
      | inr (e, q) ↦ let bad = rw (p, q) at h in cc
    ]
  ]

  pub statement-keeps :
      (s : Store) → Same s.tables (f s.statements s.tables) → (statement db f s).0.tables ≡ s.tables
  unfolding statement
  statement-keeps s same = elim (Bool-cases (db.up s.statements && not s.aborted)) [
    | inr p ↦ rw p refl
    | inl p ↦ elim (Result-cases (f s.statements s.tables)) [
      | inl ((u, b), q) ↦ let kept = rw q at same in rw (p, q) kept
      | inr (e, q) ↦ rw (p, q) refl
    ]
  ]

module _ {E A : Type 0} (db : Database) (begin_error commit_error : E)
    (block : Exec Store E A) where
  -- The state in which the block starts.
  abbrev pub begun : Store → Store
  begun s = record s { statements = s.statements + 1; in_transaction = true; aborted = false }

  pub transaction-err :
      (s : Store) (e : E)
      → (transaction db begin_error commit_error block s).1 ≡ err e
      → (transaction db begin_error commit_error block s).0.tables ≡ s.tables
  unfolding transaction
  transaction-err s e h = elim (Bool-cases (db.up s.statements)) [
    | inr p ↦ rw p refl
    | inl p ↦ elim (Result-cases (block (begun s)).1) [
      | inr (x, q) ↦ rw (p, q) refl
      | inl (a, q) ↦
          let last = (block (begun s)).0 in
          elim (Bool-cases (db.up last.statements && not last.aborted)) [
            | inr r ↦ rw (p, q, r) refl
            | inl r ↦ let bad = rw (p, q, r) at h in cc
          ]
    ]
  ]

  pub transaction-ok :
      (s : Store) (a : A)
      → (transaction db begin_error commit_error block s).1 ≡ ok a
      → ((block (begun s)).1 ≡ ok a)
        × ((block (begun s)).0.aborted ≡ false)
        × ((transaction db begin_error commit_error block s).0.tables ≡ (block (begun s)).0.tables)
  unfolding transaction
  transaction-ok s a h = elim (Bool-cases (db.up s.statements)) [
    | inr p ↦ let bad = rw p at h in cc
    | inl p ↦ elim (Result-cases (block (begun s)).1) [
      | inr (x, q) ↦ let bad = rw (p, q) at h in cc
      | inl (b, q) ↦
          let last = (block (begun s)).0 in
          elim (Bool-cases (db.up last.statements && not last.aborted)) [
            | inr r ↦ let bad = rw (p, q, r) at h in cc
            | inl r ↦ let same = rw (p, q, r) at h in rw (p, q, r) (same, ground (arith, r), refl)
          ]
    ]
  ]

pub one-Same : {A : Type 0} (t : Tables) (o : Option A) → Same t (one t o)
one-Same t none = tt
one-Same t (some a) = refl

-- What is left of a result whose error is not looked at.
abbrev pub value : {E A : Type 0} → A → Result E A → A
value d (ok a) = a
value d (err e) = d

pub or_value-eq :
    {S E F A : Type 0} (d : A) (m : Exec S E A) (s : S)
    → or_value {F = F} d m s ≡ ((m s).0, ok (value d (m s).1))
unfolding or_value
or_value-eq d m s = elim (Result-cases (m s).1) [
  | inl (a, p) ↦ rw (or_value, p) refl
  | inr (e, p) ↦ rw (or_value, p) refl
]
