-- ===== src/Store/Rules.antt =====
-- cp/internal/store/gen/policies.sql.go: the statements on the tables rules and
-- rule_objectgroup_refs, with the constraints of cp/migrations.
pub mod Keys
use qf.Common.{
  ℕ, ◌+◌, Bool, true, false, not, ◌&&◌, ◌||◌, Option, none, some, List, [], ◌∷◌, ◌++◌, Text,
  text_eq, map, codes, Result, ok, err, if◌then◌else◌, ltb,
}
use qf.Common.Int.{ℤ, pos, inc, ltb_ℤ, eqb_ℤ}
use qf.Common.Exec.{Exec}
use qf.Common.Tables.{find_row, rows_where, delete_where, update_where}
use qf.Common.Sort.{sort_by, then_by}
use qf.Policy.{Raw, Uuid, PolicyRow, Rule}
use qf.Store.{
  Database, Tables, Store, StoreError, no_rows, refused, PolicyRecord, RuleRecord, ConfigVersion,
  RuleObjectgroupRef, statement, is_there, has_next, one,
}

pub record RuleParams : Type 0 where
  pub name : Text
  pub priority : ℤ
  pub direction : Text
  pub matching : Raw
  pub state : Option Text
  pub action : Text
  pub log : Bool
  pub silent : Bool

-- The WHERE clauses.
abbrev pub is_rule : Uuid → RuleRecord → Bool
is_rule id r = text_eq r.rule.id id

abbrev pub has_policy : Uuid → RuleRecord → Bool
has_policy id r = text_eq r.rule.policy_id id

abbrev same_ref : RuleObjectgroupRef → RuleObjectgroupRef → Bool
same_ref a b =
    text_eq a.rule_id b.rule_id
    && (text_eq a.object_group_id b.object_group_id && text_eq a.role b.role)

-- The ORDER BY clause; rows that it leaves equal come in the order of their insertion.
abbrev pub rule_priority : RuleRecord → RuleRecord → Bool
rule_priority a b = ltb_ℤ a.rule.priority b.rule.priority

-- The CHECK constraints of the table rules.
abbrev one_of : List Text → Text → Bool
one_of [] s = false
one_of (t ∷ ts) s = text_eq s t || one_of ts s

abbrev state_or_null : Option Text → Bool
state_or_null none = true
state_or_null (some s) =
    one_of (codes "new" ∷ codes "established" ∷ codes "related" ∷ codes "invalid" ∷ []) s

unfoldable pub rule_checks : RuleParams → Bool
rule_checks a =
    one_of (codes "ingress" ∷ codes "egress" ∷ []) a.direction
    && (state_or_null a.state && one_of (codes "allow" ∷ codes "deny" ∷ codes "log" ∷ []) a.action)

-- The check and the foreign keys of the table rule_objectgroup_refs.
abbrev takes_ref : RuleObjectgroupRef → Tables → Bool
takes_ref f t =
    one_of (codes "src" ∷ codes "dst" ∷ []) f.role
    && (is_there (find_row (is_rule f.rule_id) t.rules)
        && is_there (find_row (λ g. text_eq g.group.id f.object_group_id) t.object_groups))

-- ON DELETE CASCADE, of the rules and of their references.
unfoldable pub drop_rules : (RuleRecord → Bool) → Tables → Tables
unfolding delete_where find_row
drop_rules test t = record t {
  rules = delete_where test t.rules;
  refs =
      delete_where
        (λ (f : RuleObjectgroupRef).
          is_there (find_row (λ r. text_eq r.rule.id f.rule_id && test r) t.rules))
        t.refs;
}

-- ListRuleIDsByObjectGroup: DISTINCT.
unfoldable pub distinct : List Uuid → List Uuid
distinct [] = []
distinct (x ∷ xs) = let rest = distinct xs in if one_of rest x then rest else x ∷ rest

abbrev pub rule_ids : List RuleObjectgroupRef → List Uuid
rule_ids fs = map (λ (f : RuleObjectgroupRef). f.rule_id) fs

unfoldable pub refs_of : Uuid → Tables → List Uuid
unfolding rows_where distinct
refs_of group_id t =
    distinct (
      rule_ids (rows_where (λ (f : RuleObjectgroupRef). text_eq f.object_group_id group_id) t.refs))

-- What ListRulesByPolicy returns.
unfoldable pub rules_of : Uuid → Tables → List RuleRecord
unfolding rows_where sort_by
rules_of policy_id t = sort_by rule_priority (rows_where (has_policy policy_id) t.rules)

module _ (db : Database) where
  abbrev pub new_rule : ℕ → Uuid → RuleParams → RuleRecord
  new_rule n policy_id a = record {
    rule = record {
      id = db.new_id n;
      policy_id = policy_id;
      name = a.name;
      priority = a.priority;
      direction = a.direction;
      matching = db.jsonb a.matching;
      state = a.state;
      action = a.action;
      log = a.log;
      silent = a.silent;
    };
    created_at = db.now n;
    updated_at = db.now n;
  }

  -- The foreign key, the checks and the primary key of the table rules.
  unfoldable pub takes_rule : ℕ → Uuid → RuleParams → Tables → Bool
  unfolding find_row rule_checks
  takes_rule n policy_id a t =
      is_there (find_row (λ p. text_eq p.policy.id policy_id) t.policies)
      && (rule_checks a && not (is_there (find_row (is_rule (db.new_id n)) t.rules)))

  unfoldable pub create_rule : Uuid → RuleParams → Exec Store StoreError RuleRecord
  create_rule policy_id a = statement db λ n t.
      if takes_rule n policy_id a t
      then ok (record t { rules = t.rules ++ new_rule n policy_id a ∷ [] }, new_rule n policy_id a)
      else err refused

  unfoldable pub get_rule : Uuid → Exec Store StoreError RuleRecord
  get_rule id = statement db λ n t. one t (find_row (is_rule id) t.rules)

  unfoldable pub list_rules_by_policy : Uuid → Exec Store StoreError (List RuleRecord)
  list_rules_by_policy policy_id = statement db λ n t. ok (t, rules_of policy_id t)

  abbrev pub updated_rule : ℕ → RuleParams → RuleRecord → RuleRecord
  updated_rule n a r = record r {
    rule = record {
      id = r.rule.id;
      policy_id = r.rule.policy_id;
      name = a.name;
      priority = a.priority;
      direction = a.direction;
      matching = db.jsonb a.matching;
      state = a.state;
      action = a.action;
      log = a.log;
      silent = a.silent;
    };
    updated_at = db.now n;
  }

  abbrev pub set_rule :
      ℕ → Uuid → RuleParams → Tables → Option RuleRecord → Result StoreError (Tables × RuleRecord)
  set_rule n id a t none = err no_rows
  set_rule n id a t (some r) =
      if rule_checks a
      then ok (
        record t { rules = update_where (is_rule id) (updated_rule n a) t.rules },
        updated_rule n a r,
      )
      else err refused

  unfoldable pub update_rule : Uuid → RuleParams → Exec Store StoreError RuleRecord
  update_rule id a = statement db λ n t. set_rule n id a t (find_row (is_rule id) t.rules)

  unfoldable pub delete_rule : Uuid → Exec Store StoreError (Unit {0})
  delete_rule id = statement db λ n t. ok (drop_rules (is_rule id) t, tt)

  unfoldable pub delete_rules_by_policy : Uuid → Exec Store StoreError (Unit {0})
  delete_rules_by_policy policy_id =
      statement db λ n t. ok (drop_rules (has_policy policy_id) t, tt)

module _ (db : Database) where
  unfoldable pub upsert_rule_object_group_ref :
      Uuid → Uuid → Text → Exec Store StoreError (Unit {0})
  upsert_rule_object_group_ref rule_id group_id role =
      let f : RuleObjectgroupRef = record {
        rule_id = rule_id;
        object_group_id = group_id;
        role = role;
      } in
      statement db λ n t.
        if not (takes_ref f t)
        then err refused
        else if is_there (find_row (same_ref f) t.refs)
        then ok (t, tt)
        else ok (record t { refs = t.refs ++ f ∷ [] }, tt)

  unfoldable pub delete_rule_object_group_refs : Uuid → Exec Store StoreError (Unit {0})
  delete_rule_object_group_refs rule_id = statement db λ n t. ok (
    record t { refs = delete_where (λ (f : RuleObjectgroupRef). text_eq f.rule_id rule_id) t.refs },
    tt,
  )

  unfoldable pub list_rule_ids_by_object_group : Uuid → Exec Store StoreError (List Uuid)
  list_rule_ids_by_object_group group_id = statement db λ n t. ok (t, refs_of group_id t)
