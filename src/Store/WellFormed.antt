-- ===== src/Store/WellFormed.antt =====
-- The primary keys and foreign keys of the tables policies, rules and config_versions.
pub mod Rows
pub mod Statements
use qf.Common.{
  ℕ, ◌+◌, ◌≡◌, refl, ap, sym, ◌∙◌, Bool, true, false, not, ◌&&◌, ◌||◌, Option, none, some, List, [],
  ◌∷◌, ◌++◌, All, Text, text_eq, text_eq_iff, text_eq_refl, Result, ok, err, Bool-cases,
  Option-cases, inl, inr, arith, if◌then◌else◌,
}
use qf.Common.Tables.{find_row, rows_where, delete_where, update_where}
use qf.Policy.{Uuid}
use qf.Store.{Tables, PolicyRecord, RuleRecord, RuleObjectgroupRef, is_there}
use qf.Store.Rules.{is_rule, has_policy, drop_rules}
use qf.Store.Rules.Keys.{IsKeyed}

-- Each row has a test that no later row passes.
module _ {A : Type 0} (key : A → Text) where
  abbrev pub has_key : Text → A → Bool
  has_key k x = text_eq (key x) k

  abbrev pub IsUniqueBy : List A → Type 0
  IsUniqueBy [] = Unit
  IsUniqueBy (x ∷ xs) = (find_row (has_key (key x)) xs ≡ none) × IsUniqueBy xs

  find_row-append :
      (p : A → Bool) (xs : List A) (y : A)
      → find_row p xs ≡ none
      → p y ≡ false
      → find_row p (xs ++ y ∷ []) ≡ none
  unfolding find_row
  find_row-append p [] y h k = rw k refl
  find_row-append p (x ∷ xs) y h k = ground (arith, find_row-append p xs y, h, k)

  -- An INSERT that the primary key lets through.
  pub IsUniqueBy-append :
      (xs : List A) (y : A)
      → IsUniqueBy xs
      → find_row (has_key (key y)) xs ≡ none
      → IsUniqueBy (xs ++ y ∷ [])
  unfolding find_row
  IsUniqueBy-append [] y u h = (refl, tt)
  IsUniqueBy-append (x ∷ xs) y u h =
      let apart : text_eq (key x) (key y) ≡ false = ground (arith, h) in
      let apart' : text_eq (key y) (key x) ≡ false =
        ground (arith, apart, text_eq_iff (key x) (key y), text_eq_iff (key y) (key x)) in
      let later : find_row (has_key (key y)) xs ≡ none = ground (arith, h) in
      (find_row-append (has_key (key x)) xs y u.0 apart', IsUniqueBy-append xs y u.1 later)

  find_row-delete_where :
      (p q : A → Bool) (xs : List A) → find_row p xs ≡ none → find_row p (delete_where q xs) ≡ none
  unfolding find_row delete_where
  find_row-delete_where p q [] h = refl
  find_row-delete_where p q (x ∷ xs) h = ground (arith, find_row-delete_where p q xs, h)

  pub IsUniqueBy-delete_where :
      (q : A → Bool) (xs : List A) → IsUniqueBy xs → IsUniqueBy (delete_where q xs)
  unfolding delete_where
  IsUniqueBy-delete_where q [] u = tt
  IsUniqueBy-delete_where q (x ∷ xs) u = elim (Bool-cases (q x)) [
    | inl e ↦ rw e (IsUniqueBy-delete_where q xs u.1)
    | inr e ↦
        rw e (find_row-delete_where (has_key (key x)) q xs u.0, IsUniqueBy-delete_where q xs u.1)
  ]

  -- An UPDATE that leaves the key alone.
  module _ (f : A → A) (fixed : (x : A) → key (f x) ≡ key x) where
    pub find_row-update_key :
        (k : Text) (q : A → Bool) (xs : List A)
        → find_row (has_key k) xs ≡ none
        → find_row (has_key k) (update_where q f xs) ≡ none
    unfolding find_row update_where
    find_row-update_key k q [] h = refl
    find_row-update_key k q (x ∷ xs) h =
        ground (arith, find_row-update_key k q xs, h, ap (λ j. text_eq j k) (fixed x))

    pub IsUniqueBy-update_where :
        (q : A → Bool) (xs : List A) → IsUniqueBy xs → IsUniqueBy (update_where q f xs)
    unfolding update_where
    IsUniqueBy-update_where q [] u = tt
    IsUniqueBy-update_where q (x ∷ xs) u = elim (Bool-cases (q x)) [
      | inl e ↦
          rw e
            (rw (fixed x) (find_row-update_key (key x) q xs u.0), IsUniqueBy-update_where q xs u.1)
      | inr e ↦ rw e (find_row-update_key (key x) q xs u.0, IsUniqueBy-update_where q xs u.1)
    ]

abbrev pub policy_key : PolicyRecord → Text
policy_key p = p.policy.id

abbrev pub rule_key : RuleRecord → Text
rule_key r = r.rule.id

-- The policy that a rule refers to is there.
abbrev pub HasPolicy : List PolicyRecord → RuleRecord → Type 0
HasPolicy ps r = is_there (find_row (has_key policy_key r.rule.policy_id) ps) ≡ true

-- `P` holds of every reference of a rule to an object group.
pub record IsWellFormed (P : RuleObjectgroupRef → Type 0) (t : Tables) : Type 0 where
  pub policies : IsUniqueBy policy_key t.policies
  pub rules : IsUniqueBy rule_key t.rules
  pub owners : All (HasPolicy t.policies) t.rules
  pub refs : All P t.refs

pub IsUniqueBy-IsKeyed : (rs : List RuleRecord) → IsUniqueBy rule_key rs → IsKeyed rs
unfolding find_row
IsUniqueBy-IsKeyed [] u = tt
IsUniqueBy-IsKeyed (r ∷ rs) u = (apart rs u.0, IsUniqueBy-IsKeyed rs u.1)
  where
    apart :
        (xs : List RuleRecord)
        → find_row (has_key rule_key r.rule.id) xs ≡ none
        → All (λ (x : RuleRecord). text_eq r.rule.id x.rule.id ≡ false) xs
    apart [] h = tt
    apart (x ∷ xs) h = (
      ground (arith, h, text_eq_iff x.rule.id r.rule.id, text_eq_iff r.rule.id x.rule.id),
      apart xs (ground (arith, h)),
    )
