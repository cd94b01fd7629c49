-- ===== src/Store/Keeps.antt =====
-- Invariants of a part of the state, one rule for each way to build a handler.
use qf.Common.{
  ℕ, ◌+◌, Bool, true, false, not, ◌&&◌, Result, ok, err, Bool-cases, Result-cases, inl, inr,
  if◌then◌else◌,
}
use qf.Common.Exec.{Exec, pure, raise_if, lift, or_value, ◌>>=◌}
use qf.Store.{Database, Tables, Store, StoreError, statement, transaction}

-- `m` keeps `R` of a part of the state, whether it returns or not.
pub record Keeps {S V E A : Type 0} (view : S → V) (R : V → Type 0) (m : Exec S E A) : Type 0 where
  pub at : (s : S) → R (view s) → R (view (m s).0)

module _ {S V E A : Type 0} {view : S → V} {R : V → Type 0} where
  pub Keeps-pure : (a : A) → Keeps {E = E} view R (pure a)
  unfolding pure
  Keeps-pure a = record { at = λ s h. h }

  pub Keeps-lift : (r : Result E A) → Keeps view R (lift r)
  unfolding lift
  Keeps-lift r = record { at = λ s h. h }

  pub Keeps-if :
      (b : Bool) (m n : Exec S E A)
      → Keeps view R m
      → Keeps view R n
      → Keeps view R (if b then m else n)
  Keeps-if true m n km kn = km
  Keeps-if false m n km kn = kn

module _ {S V E : Type 0} {view : S → V} {R : V → Type 0} where
  pub Keeps-raise_if : (b : Bool) (e : E) → Keeps view R (raise_if {S = S} b e)
  unfolding raise_if
  Keeps-raise_if true e = record { at = λ s h. h }
  Keeps-raise_if false e = record { at = λ s h. h }

module _ {S V E F A : Type 0} {view : S → V} {R : V → Type 0} where
  pub Keeps-or_value :
      (d : A) (m : Exec S E A) → Keeps view R m → Keeps view R (or_value {F = F} d m)
  unfolding or_value
  Keeps-or_value d m k = record {
    at = λ s h. elim (Result-cases (m s).1) [
      | inl (a, p) ↦ rw (or_value, p) (k.at s h)
      | inr (e, p) ↦ rw (or_value, p) (k.at s h)
    ];
  }

module _ {S V E A B : Type 0} {view : S → V} {R : V → Type 0} where
  pub Keeps-bind :
      (m : Exec S E A) (f : A → Exec S E B)
      → Keeps view R m
      → ((a : A) → Keeps view R (f a))
      → Keeps view R (m >>= f)
  unfolding ◌>>=◌
  Keeps-bind m f km kf = record {
    at = λ s h. elim (Result-cases (m s).1) [
      | inl (a, p) ↦ rw (◌>>=◌, p) ((kf a).at (m s).0 (km.at s h))
      | inr (e, p) ↦ rw (◌>>=◌, p) (km.at s h)
    ];
  }

-- The tables of a store, named for the rules.
unfoldable pub tables_of : Store → Tables
tables_of s = s.tables

-- `R` holds of the tables that a statement returns.
abbrev pub Ensures : {A : Type 0} → (Tables → Type 0) → Result StoreError (Tables × A) → Type 0
Ensures R (ok (t, a)) = R t
Ensures R (err e) = Unit

module _ {A : Type 0} {R : Tables → Type 0} (db : Database) where
  pub Keeps-statement :
      (f : ℕ → Tables → Result StoreError (Tables × A))
      → ((n : ℕ) (t : Tables) → R t → Ensures R (f n t))
      → Keeps tables_of R (statement db f)
  unfolding tables_of statement
  Keeps-statement f k = record {
    at = λ s h. elim (Bool-cases (db.up s.statements && not s.aborted)) [
      | inr p ↦ rw p h
      | inl p ↦ elim (Result-cases (f s.statements s.tables)) [
        | inl ((u, b), q) ↦ let kept = rw q at (k s.statements s.tables h) in rw (p, q) kept
        | inr (e, q) ↦ rw (p, q) h
      ]
    ];
  }

module _ {E A : Type 0} {R : Tables → Type 0} (db : Database) where
  pub Keeps-transaction :
      (begin_error commit_error : E) (block : Exec Store E A)
      → Keeps tables_of R block
      → Keeps tables_of R (transaction db begin_error commit_error block)
  unfolding tables_of transaction
  Keeps-transaction b c block k = record {
    at = λ s h.
        let start = record s {
          statements = s.statements + 1;
          in_transaction = true;
          aborted = false;
        } in
        elim (Bool-cases (db.up s.statements)) [
          | inr p ↦ rw p h
          | inl p ↦ elim (Result-cases (block start).1) [
            | inr (e, q) ↦ rw (p, q) h
            | inl (a, q) ↦
                let last = (block start).0 in
                elim (Bool-cases (db.up last.statements && not last.aborted)) [
                  | inr r ↦ rw (p, q, r) h
                  | inl r ↦ rw (p, q, r) (k.at start h)
                ]
          ]
        ];
  }

pub ruleset keeps_rules = (
  Keeps-pure, Keeps-lift, Keeps-if, Keeps-raise_if, Keeps-or_value, Keeps-bind, Keeps-transaction,
)
