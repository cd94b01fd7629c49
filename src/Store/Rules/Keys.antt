-- ===== src/Store/Rules/Keys.antt =====
-- The primary key of the table rules, and deleting by it.
use qf.Common.{
  ◌≡◌, refl, sym, ◌∙◌, Bool, true, false, ◌||◌, List, [], ◌∷◌, All, Text, text_eq, text_eq_iff,
  text_eq_refl, arith, if◌then◌else◌,
}
use qf.Common.Tables.{rows_where, delete_where}
use qf.Common.Tables.Laws.{delete_where-congr, delete_where-delete_where, delete_where_none}
use qf.Common.Sort.{sort_insert, sort_by}
use qf.Policy.{Uuid}
use qf.Store.{Tables, RuleRecord}
use qf.Store.Rules.{is_rule, has_policy, rule_priority, rules_of}

-- No two rows have one id.
abbrev pub IsKeyed : List RuleRecord → Type 0
IsKeyed [] = Unit
IsKeyed (r ∷ rs) = All (λ (x : RuleRecord). text_eq r.rule.id x.rule.id ≡ false) rs × IsKeyed rs

abbrev pub listed : List RuleRecord → RuleRecord → Bool
listed [] x = false
listed (e ∷ es) x = text_eq e.rule.id x.rule.id || listed es x

-- Deleting the rows of a list, one after the other.
abbrev pub without : List RuleRecord → List RuleRecord → List RuleRecord
without [] rows = rows
without (e ∷ es) rows = without es (delete_where (is_rule e.rule.id) rows)

symmetric : (a b : Text) → text_eq a b ≡ text_eq b a
symmetric a b = ground (arith, text_eq_iff a b, text_eq_iff b a)

listed-sort_insert :
    (less : RuleRecord → RuleRecord → Bool) (e : RuleRecord) (es : List RuleRecord) (x : RuleRecord)
    → listed (sort_insert less e es) x ≡ listed (e ∷ es) x
unfolding sort_insert
listed-sort_insert less e [] x = refl
listed-sort_insert less e (d ∷ ds) x = ground (arith, listed-sort_insert less e ds x)

listed-sort_by :
    (less : RuleRecord → RuleRecord → Bool) (es : List RuleRecord) (x : RuleRecord)
    → listed (sort_by less es) x ≡ listed es x
unfolding sort_by
listed-sort_by less [] x = refl
listed-sort_by less (e ∷ es) x =
    listed-sort_insert less e (sort_by less es) x ∙ ground (arith, listed-sort_by less es x)

without-eq-delete_where :
    (es rows : List RuleRecord) → without es rows ≡ delete_where (listed es) rows
without-eq-delete_where [] rows = sym (delete_where_none rows)
without-eq-delete_where (e ∷ es) rows =
    without-eq-delete_where es (delete_where (is_rule e.rule.id) rows)
    ∙ delete_where-delete_where (listed es) (is_rule e.rule.id) rows
    ∙ delete_where-congr _ _ rows (each rows)
  where
    each :
        (xs : List RuleRecord)
        → All (λ x. (if is_rule e.rule.id x then true else listed es x) ≡ listed (e ∷ es) x) xs
    each [] = tt
    each (x ∷ xs) = (ground (arith, symmetric x.rule.id e.rule.id), each xs)

-- A row that shares its id with none of the rows is not listed by some of them.
not_listed :
    (test : RuleRecord → Bool) (r : RuleRecord) (rows : List RuleRecord)
    → All (λ (x : RuleRecord). text_eq r.rule.id x.rule.id ≡ false) rows
    → listed (rows_where test rows) r ≡ false
unfolding rows_where
not_listed test r [] h = refl
not_listed test r (x ∷ xs) h =
    ground (arith, not_listed test r xs h.1, h.0, symmetric x.rule.id r.rule.id)

skip :
    (test : RuleRecord → Bool) (r : RuleRecord) (rows xs : List RuleRecord)
    → All (λ (x : RuleRecord). text_eq r.rule.id x.rule.id ≡ false) xs
    → All (λ x. listed (rows_where test rows) x ≡ test x) xs
    → All (λ x. listed (rows_where test (r ∷ rows)) x ≡ test x) xs
unfolding rows_where
skip test r rows [] h k = tt
skip test r rows (x ∷ xs) h k = (ground (arith, h.0, k.0), skip test r rows xs h.1 k.1)

head_listed :
    (test : RuleRecord → Bool) (r : RuleRecord) (rs : List RuleRecord)
    → All (λ (x : RuleRecord). text_eq r.rule.id x.rule.id ≡ false) rs
    → listed (rows_where test (r ∷ rs)) r ≡ test r
unfolding rows_where
head_listed test r rs h = ground (arith, text_eq_refl r.rule.id, not_listed test r rs h)

listed-rows_where :
    (test : RuleRecord → Bool) (rows : List RuleRecord)
    → IsKeyed rows
    → All (λ x. listed (rows_where test rows) x ≡ test x) rows
listed-rows_where test [] u = tt
listed-rows_where test (r ∷ rs) u =
    (head_listed test r rs u.0, skip test r rs rs u.0 (listed-rows_where test rs u.1))

-- Deleting what ListRulesByPolicy returns, row by row, is deleting the policy's rules.
pub without-rules_of :
    (id : Uuid) (t : Tables)
    → IsKeyed t.rules
    → without (rules_of id t) t.rules ≡ delete_where (has_policy id) t.rules
unfolding rules_of
without-rules_of id t u =
    without-eq-delete_where (rules_of id t) t.rules
    ∙ delete_where-congr _ _ t.rules (sorted t.rules (listed-rows_where (has_policy id) t.rules u))
  where
    sorted :
        (xs : List RuleRecord)
        → All (λ x. listed (rows_where (has_policy id) t.rules) x ≡ has_policy id x) xs
        → All
            (λ x.
              listed (sort_by rule_priority (rows_where (has_policy id) t.rules)) x
              ≡ has_policy id x)
            xs
    sorted [] h = tt
    sorted (x ∷ xs) h =
        (listed-sort_by rule_priority (rows_where (has_policy id) t.rules) x ∙ h.0, sorted xs h.1)
