-- ===== src/Policy/DryRun/Diff.antt =====
-- What the three lists of a diff hold.
use qf.Common.{
  ◌≡◌, ◌∙◌, refl, ap, Bool, true, false, ◌&&◌, ◌||◌, not, Option, none, some, List, [], ◌∷◌, Text,
  text_eq, text_eq_iff, text_lt, text_lt_asymm, text_lt_trans, arith, if◌then◌else◌,
}
use qf.Common.Sort.{sort_by, sort_insert, IsOrdered, sort_by-IsOrdered}
use qf.Policy.Matching.{contains}
use qf.Policy.Ruleset.{ResolvedRule, EffectiveRuleset}
use qf.Policy.DryRun.{
  HostDiff, RuleKey, KeyMap, key_eq, find_key, put_key, rule_key, id_of, put_rules, is_missing,
  missing_from, changed_from, diff_rulesets,
}

-- The last rule of a list that has the id.
abbrev pub or_key : Option RuleKey → Option RuleKey → Option RuleKey
or_key none l = l
or_key (some k) l = some k

unfoldable pub last_key : Text → List ResolvedRule → Option RuleKey
last_key id [] = none
last_key id (r ∷ rs) =
    or_key (last_key id rs) (if text_eq (id_of r) id then some (rule_key r) else none)

-- The key is there in both, with different values.
abbrev pub differs : Option RuleKey → Option RuleKey → Bool
differs none l = false
differs (some k) none = false
differs (some k) (some l) = not (key_eq k l)

abbrev NodupKeys : KeyMap → Type 0
NodupKeys [] = Unit
NodupKeys ((id, k) ∷ m) = (find_key id m ≡ none) × NodupKeys m

find_key-put_key :
    (j id : Text) (k : RuleKey) (m : KeyMap)
    → find_key j (put_key id k m) ≡ (if text_eq id j then some k else find_key j m)
unfolding find_key put_key
find_key-put_key j id k [] = refl
find_key-put_key j id k ((i, l) ∷ m) =
    ground (arith, find_key-put_key j id k m, text_eq_iff i id, text_eq_iff i j, text_eq_iff id j)

put_key-NodupKeys :
    (id : Text) (k : RuleKey) (m : KeyMap) → NodupKeys m → NodupKeys (put_key id k m)
unfolding put_key find_key
put_key-NodupKeys id k [] u = (refl, tt)
put_key-NodupKeys id k ((i, l) ∷ m) u = ground (
  arith,
  put_key-NodupKeys id k m u.1,
  find_key-put_key i id k m,
  text_eq_iff i id,
  text_eq_iff id i,
)

put_rules-NodupKeys :
    (rs : List ResolvedRule) (m : KeyMap) → NodupKeys m → NodupKeys (put_rules rs m)
unfolding put_rules
put_rules-NodupKeys [] m u = u
put_rules-NodupKeys (r ∷ rs) m u =
    put_rules-NodupKeys rs _ (put_key-NodupKeys (id_of r) (rule_key r) m u)

find_key-put_rules :
    (id : Text) (rs : List ResolvedRule) (m : KeyMap)
    → find_key id (put_rules rs m) ≡ or_key (last_key id rs) (find_key id m)
unfolding put_rules last_key
find_key-put_rules id [] m = refl
find_key-put_rules id (r ∷ rs) m = ground (
  arith,
  find_key-put_rules id rs (put_key (id_of r) (rule_key r) m),
  find_key-put_key id (id_of r) (rule_key r) m,
)

same_key : (i id : Text) (m : KeyMap) → text_eq i id ≡ true → find_key i m ≡ find_key id m
same_key i id m e = ap (λ x. find_key x m) ((text_eq_iff i id).0 e)

contains-missing_from :
    (id : Text) (other m : KeyMap)
    → contains (missing_from other m) id
      ≡ not (is_missing (find_key id m)) && is_missing (find_key id other)
unfolding contains missing_from find_key
contains-missing_from id other [] = refl
contains-missing_from id other ((i, k) ∷ m) =
    ground (arith, contains-missing_from id other m, same_key i id other)

contains-changed_from :
    (id : Text) (other m : KeyMap)
    → NodupKeys m
    → contains (changed_from other m) id ≡ differs (find_key id m) (find_key id other)
unfolding contains changed_from find_key
contains-changed_from id other [] u = refl
contains-changed_from id other ((i, k) ∷ m) u =
    ground (arith, contains-changed_from id other m u.1, same_key i id other, same_key i id m)

contains-sort_insert :
    (v x : Text) (xs : List Text)
    → contains (sort_insert text_lt x xs) v ≡ text_eq x v || contains xs v
unfolding contains sort_insert
contains-sort_insert v x [] = refl
contains-sort_insert v x (y ∷ ys) = ground (arith, contains-sort_insert v x ys)

contains-sort_by : (v : Text) (xs : List Text) → contains (sort_by text_lt xs) v ≡ contains xs v
unfolding contains sort_by
contains-sort_by v [] = refl
contains-sort_by v (x ∷ xs) =
    contains-sort_insert v x (sort_by text_lt xs) ∙ ap (◌||◌ (text_eq x v)) (contains-sort_by v xs)

pub sorted_texts : (xs : List Text) → IsOrdered text_lt (sort_by text_lt xs)
sorted_texts xs = sort_by-IsOrdered text_lt text_lt_asymm text_lt_trans xs

-- What the lists of a diff hold.
pub record IsDiff (before after : List ResolvedRule) (d : HostDiff) : Type 0 where
  pub added :
      (id : Text)
      → contains d.added id
        ≡ not (is_missing (last_key id after)) && is_missing (last_key id before)
  pub removed :
      (id : Text)
      → contains d.removed id
        ≡ not (is_missing (last_key id before)) && is_missing (last_key id after)
  pub changed :
      (id : Text) → contains d.changed id ≡ differs (last_key id after) (last_key id before)
  pub added_sorted : IsOrdered text_lt d.added
  pub removed_sorted : IsOrdered text_lt d.removed
  pub changed_sorted : IsOrdered text_lt d.changed

find_key_all : (id : Text) (rs : List ResolvedRule) → find_key id (put_rules rs []) ≡ last_key id rs
unfolding find_key
find_key_all id rs = find_key-put_rules id rs [] ∙ or_none (last_key id rs)
  where
    or_none : (o : Option RuleKey) → or_key o none ≡ o
    or_none none = refl
    or_none (some k) = refl

-- The diff of two rulesets lists, in order, the ids of the rules that are only after, those that
-- are only before, and those in both whose action or direction differs; where an id has several
-- rules, its last one counts.
pub diff_rulesets-IsDiff :
    (before after : EffectiveRuleset) → IsDiff before.rules after.rules (diff_rulesets before after)
unfolding diff_rulesets
diff_rulesets-IsDiff before after =
    let b = put_rules before.rules [] in
    let a = put_rules after.rules [] in
    record {
      added = λ id.
          contains-sort_by id (missing_from b a)
          ∙ contains-missing_from id b a
          ∙ rw (find_key_all id after.rules, find_key_all id before.rules);
      removed = λ id.
          contains-sort_by id (missing_from a b)
          ∙ contains-missing_from id a b
          ∙ rw (find_key_all id after.rules, find_key_all id before.rules);
      changed = λ id.
          contains-sort_by id (changed_from b a)
          ∙ contains-changed_from id b a (put_rules-NodupKeys after.rules [] tt)
          ∙ rw (find_key_all id after.rules, find_key_all id before.rules);
      added_sorted = sorted_texts (missing_from b a);
      removed_sorted = sorted_texts (missing_from a b);
      changed_sorted = sorted_texts (changed_from b a);
    }
