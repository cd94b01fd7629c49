-- ===== src/Store/Versions/Numbers.antt =====
-- The numbers of the versions.
use qf.Common.{
  ℕ, zero, suc, ◌≡◌, refl, Bool, true, false, ◌&&◌, Option, none, some, List, [], ◌∷◌, ◌++◌, Text,
  text_eq_refl, ok, err, Bool-cases, Option-cases, inl, inr, arith, if◌then◌else◌,
}
use qf.Common.Int.{ℤ, pos, negsuc, inc, ltb_ℤ, eqb_ℤ}
use qf.Common.Tables.{find_row}
use qf.Policy.{Raw, Uuid}
use qf.Store.{Database, Tables, Store, ConfigVersion, refused}
use qf.Store.Laws.{statement-eq-ok}
use qf.Store.Versions.{
  is_version, is_version_of, max_ℤ, max_version, or_zero, takes_version, new_version,
  insert_config_version,
}

eqb-inc : (a m : ℤ) → ltb_ℤ m a ≡ false → eqb_ℤ a (inc m) ≡ false
eqb-inc (pos a) (pos m) h = ground arith
eqb-inc (pos a) (negsuc zero) h = ground (arith, h)
eqb-inc (pos a) (negsuc (suc m)) h = ground (arith, h)
eqb-inc (negsuc a) (pos m) h = ground arith
eqb-inc (negsuc a) (negsuc zero) h = ground (arith, h)
eqb-inc (negsuc a) (negsuc (suc m)) h = ground (arith, h)

max-split :
    (a b m : ℤ) → ltb_ℤ m (max_ℤ a (some b)) ≡ false → (ltb_ℤ m a ≡ false) × (ltb_ℤ m b ≡ false)
max-split a b m h = (ground (arith, h), ground (arith, h))

abbrev IsBound : ℤ → Option ℤ → Type 0
IsBound m none = Unit
IsBound m (some k) = ltb_ℤ m k ≡ false

or_zero-IsBound : (o : Option ℤ) → IsBound (or_zero o) o
or_zero-IsBound none = tt
or_zero-IsBound (some k) = ground arith

-- The number after a bound of the versions is not taken.
next-free :
    (test : ConfigVersion → Bool) (m : ℤ) (vs : List ConfigVersion)
    → IsBound m (max_version test vs)
    → find_row (λ v. test v && eqb_ℤ v.version (inc m)) vs ≡ none
unfolding max_version find_row
next-free test m [] h = refl
next-free test m (v ∷ vs) h = elim (Bool-cases (test v)) [
  | inr e ↦ let bound = rw e at h in rw e (next-free test m vs bound)
  | inl e ↦ elim (Option-cases (max_version test vs)) [
    | inl p ↦
        let bound = rw (e, p) at h in
        let later : IsBound m (max_version test vs) = rw p tt in
        rw (e, eqb-inc v.version m bound) (next-free test m vs later)
    | inr (k, p) ↦
        let bound = rw (e, p) at h in
        let (here, there) = max-split v.version k m bound in
        let later : IsBound m (max_version test vs) = rw p there in
        rw (e, eqb-inc v.version m here) (next-free test m vs later)
  ]
]

abbrev or_else : {A : Type 0} → Option A → Option A → Option A
or_else none o = o
or_else (some x) o = some x

find_row-append_last :
    {A : Type 0} (p : A → Bool) (xs : List A) (y : A)
    → find_row p (xs ++ y ∷ []) ≡ or_else (find_row p xs) (if p y then some y else none)
unfolding find_row
find_row-append_last p [] y = refl
find_row-append_last p (x ∷ xs) y = elim (Bool-cases (p x)) [
  | inl e ↦ rw e refl
  | inr e ↦ rw e (find_row-append_last p xs y)
]

module _ (db : Database) (tenant id : Uuid) (kind : Text) (content : Raw) (created_by : Text) where
  -- The number that an INSERT takes.
  abbrev pub next_version : Tables → ℤ
  next_version t = inc (or_zero (max_version (is_version_of tenant kind id) t.versions))

  own-version :
      (n : ℕ) (t : Tables)
      → is_version tenant kind id
          (next_version t)
          (new_version db n tenant kind id content created_by t)
        ≡ true
  own-version n t =
      rw (text_eq_refl tenant, text_eq_refl kind, text_eq_refl id) (eqb_self (next_version t))
    where
      eqb_self : (a : ℤ) → eqb_ℤ a a ≡ true
      eqb_self a = ground arith

  -- An INSERT of a version of an entity that succeeds gives it a number that no version of the
  -- entity has; by this number GetConfigVersion then finds a row with the content, as the column
  -- gives it back, and the author; and every version that could be found before is found as before.
  pub get-insert_config_version :
      (s t : Store)
      → insert_config_version db tenant kind id content created_by s ≡ (t, ok tt)
      → (n : ℤ) × (row : ConfigVersion) × (find_row (is_version tenant kind id n) s.tables.versions
          ≡ none)
        × (find_row (is_version tenant kind id n) t.tables.versions ≡ some row)
        × (row.content ≡ db.jsonb content)
        × (row.created_by ≡ created_by)
        × ((u j : Uuid) (k : Text) (m : ℤ) (old : ConfigVersion)
            → find_row (is_version u k j m) s.tables.versions ≡ some old
            → find_row (is_version u k j m) t.tables.versions ≡ some old)
  unfolding insert_config_version
  get-insert_config_version s t h =
      let row = λ (n : ℕ) (u : Tables). new_version db n tenant kind id content created_by u in
      let old = s.tables in
      let new = record old { versions = old.versions ++ row s.statements old ∷ [] } in
      let (u, p, q) =
        statement-eq-ok db
          (λ n u.
            if takes_version tenant kind id u
            then ok (record u { versions = u.versions ++ row n u ∷ [] }, tt)
            else err refused)
          s t tt h in
      elim (Bool-cases (takes_version tenant kind id old)) [
        | inr e ↦ let bad = rw e at p in cc
        | inl e ↦
            let done = rw e at p in
            let tables : t.tables.versions ≡ old.versions ++ row s.statements old ∷ [] =
              rw q (ground (arith, done)) in
            let free =
              next-free (is_version_of tenant kind id) _ old.versions
                (or_zero-IsBound (max_version (is_version_of tenant kind id) old.versions)) in
            (
              next_version old,
              row s.statements old,
              free,
              rw
                  (
                    tables,
                    find_row-append_last (is_version tenant kind id (next_version old)) old.versions
                        (row s.statements old),
                    free,
                    own-version s.statements old,
                  )
                  refl,
              refl,
              refl,
              λ u j k m v found.
                  rw
                    (
                      tables,
                      find_row-append_last (is_version u k j m) old.versions (row s.statements old),
                      found,
                    )
                    refl,
            )
      ]
