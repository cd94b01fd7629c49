-- ===== src/Store/WellFormed/Statements.antt =====
-- Every statement keeps the keys.
use qf.Common.{
  ℕ, ◌≡◌, refl, Bool, true, false, Option, none, some, [], ◌∷◌, ◌++◌, Text, text_eq_iff, Bool-cases,
  Option-cases, inl, inr, arith,
}
use qf.Common.Tables.{find_row, delete_where, update_where}
use qf.Common.Int.{ℤ}
use qf.Policy.{Raw, Uuid}
use qf.Store.{Database, Tables, PolicyRecord, RuleRecord, RuleObjectgroupRef, has_next, one}
use qf.Store.Rules.{
  RuleParams, is_rule, has_policy, drop_rules, rule_checks, new_rule, updated_rule, takes_rule,
  create_rule, get_rule, list_rules_by_policy, update_rule, delete_rule,
}
use qf.Store.Policies.{
  PolicyParams, is_policy, new_policy, updated_policy, drop_policy, create_policy, get_policy,
  list_policies, update_policy, delete_policy,
}
use qf.Store.Versions.{
  takes_version, insert_config_version, get_config_version, list_config_versions,
}
use qf.Store.Keeps.{Keeps, tables_of, Ensures, Keeps-statement}
use qf.Store.WellFormed.Rows.{
  is_there-append, is_there-update_where, is_there-delete_where, All-map_row, All-append_row,
  All-update_where, All-delete_where,
}
use qf.Store.WellFormed.{
  has_key, IsUniqueBy-append, IsUniqueBy-delete_where, IsUniqueBy-update_where, policy_key,
  rule_key, HasPolicy, IsWellFormed,
}

module _ {P : RuleObjectgroupRef → Type 0} where
  -- Deleting rules keeps the keys.
  drop_rules-IsWellFormed :
      (test : RuleRecord → Bool) (t : Tables)
      → IsWellFormed P t
      → IsWellFormed P (drop_rules test t)
  unfolding drop_rules
  drop_rules-IsWellFormed test t w = record {
    policies = w.policies;
    rules = IsUniqueBy-delete_where rule_key test t.rules w.rules;
    owners =
        All-delete_where (HasPolicy t.policies) (HasPolicy t.policies) test t.rules (λ x e h. h)
          w.owners;
    refs = All-delete_where P P _ t.refs (λ x e h. h) w.refs;
  }

  -- With a policy go its rules.
  drop_policy-IsWellFormed :
      (id : Uuid) (t : Tables) (o : Option PolicyRecord)
      → IsWellFormed P t
      → IsWellFormed P (drop_policy id t o)
  unfolding drop_policy drop_rules
  drop_policy-IsWellFormed id t none w = w
  drop_policy-IsWellFormed id t (some p) w = record {
    policies = IsUniqueBy-delete_where policy_key (has_key policy_key id) t.policies w.policies;
    rules = IsUniqueBy-delete_where rule_key (has_policy id) t.rules w.rules;
    owners =
        All-delete_where (HasPolicy t.policies)
          (HasPolicy (delete_where (has_key policy_key id) t.policies)) (has_policy id) t.rules
          other w.owners;
    refs = All-delete_where P P _ t.refs (λ x e h. h) w.refs;
  }
    where
      other :
          (x : RuleRecord)
          → has_policy id x ≡ false
          → HasPolicy t.policies x
          → HasPolicy (delete_where (has_key policy_key id) t.policies) x
      other x e h =
          is_there-delete_where (has_key policy_key x.rule.policy_id) (has_key policy_key id)
            t.policies
            (λ q k. ground (
              arith,
              e,
              k,
              text_eq_iff q.policy.id id,
              text_eq_iff q.policy.id x.rule.policy_id,
              text_eq_iff x.rule.policy_id id,
            ))
            h

  create_rule-IsWellFormed :
      (r : RuleRecord) (t : Tables)
      → IsWellFormed P t
      → find_row (is_rule r.rule.id) t.rules ≡ none
      → HasPolicy t.policies r
      → IsWellFormed P (record t { rules = t.rules ++ r ∷ [] })
  create_rule-IsWellFormed r t w fresh owner = record {
    policies = w.policies;
    rules = IsUniqueBy-append rule_key t.rules r w.rules fresh;
    owners = All-append_row (HasPolicy t.policies) t.rules r w.owners owner;
    refs = w.refs;
  }

  module _ (db : Database) where
    one-Ensures :
        {A : Type 0} (t : Tables) (o : Option A)
        → IsWellFormed P t
        → Ensures (IsWellFormed P) (one t o)
    one-Ensures t none w = tt
    one-Ensures t (some a) w = w

    pub Keeps-create_policy :
        (tenant : Uuid) (a : PolicyParams)
        → Keeps tables_of (IsWellFormed P) (create_policy db tenant a)
    unfolding create_policy
    Keeps-create_policy tenant a = Keeps-statement db _ λ n t w.
        elim (Option-cases (find_row (has_key policy_key (db.new_id n)) t.policies)) [
          | inr (p, e) ↦ rw e tt
          | inl e ↦ rw e (record {
            policies =
                IsUniqueBy-append policy_key t.policies (new_policy db n tenant a) w.policies e;
            rules = w.rules;
            owners =
                All-map_row (HasPolicy t.policies)
                  (HasPolicy (t.policies ++ new_policy db n tenant a ∷ [])) t.rules
                  (λ x h. is_there-append (has_key policy_key x.rule.policy_id) t.policies _ h)
                  w.owners;
            refs = w.refs;
          })
        ]

    pub Keeps-get_policy :
        (id tenant : Uuid) → Keeps tables_of (IsWellFormed P) (get_policy db id tenant)
    unfolding get_policy
    Keeps-get_policy id tenant = Keeps-statement db _ λ n t w. one-Ensures t _ w

    pub Keeps-list_policies :
        (tenant : Uuid) → Keeps tables_of (IsWellFormed P) (list_policies db tenant)
    unfolding list_policies
    Keeps-list_policies tenant = Keeps-statement db _ λ n t w. w

    pub Keeps-update_policy :
        (id tenant : Uuid) (a : PolicyParams)
        → Keeps tables_of (IsWellFormed P) (update_policy db id tenant a)
    unfolding update_policy
    Keeps-update_policy id tenant a = Keeps-statement db _ λ n t w.
        let f = updated_policy db n a in
        elim (Option-cases (find_row (is_policy id tenant) t.policies)) [
          | inl e ↦ rw e tt
          | inr (p, e) ↦ elim (Bool-cases (has_next p.current_version)) [
            | inr full ↦ rw (e, full) tt
            | inl room ↦
                rw (e, room)
                  (record {
                    policies =
                        IsUniqueBy-update_where policy_key f (λ x. refl) (is_policy id tenant)
                          t.policies w.policies;
                    rules = w.rules;
                    owners =
                        All-map_row (HasPolicy t.policies)
                          (HasPolicy (update_where (is_policy id tenant) f t.policies)) t.rules
                          (λ x h.
                            is_there-update_where (has_key policy_key x.rule.policy_id)
                              (is_policy id tenant) f t.policies (λ y. refl) h)
                          w.owners;
                    refs = w.refs;
                  })
          ]
        ]

    pub Keeps-delete_policy :
        (id tenant : Uuid) → Keeps tables_of (IsWellFormed P) (delete_policy db id tenant)
    unfolding delete_policy
    Keeps-delete_policy id tenant = Keeps-statement db _ λ n t w. drop_policy-IsWellFormed id t _ w

    pub Keeps-get_rule : (id : Uuid) → Keeps tables_of (IsWellFormed P) (get_rule db id)
    unfolding get_rule
    Keeps-get_rule id = Keeps-statement db _ λ n t w. one-Ensures t _ w

    pub Keeps-list_rules :
        (id : Uuid) → Keeps tables_of (IsWellFormed P) (list_rules_by_policy db id)
    unfolding list_rules_by_policy
    Keeps-list_rules id = Keeps-statement db _ λ n t w. w

    pub Keeps-create_rule :
        (id : Uuid) (a : RuleParams) → Keeps tables_of (IsWellFormed P) (create_rule db id a)
    unfolding create_rule takes_rule
    Keeps-create_rule id a = Keeps-statement db _ λ n t w.
        elim (Bool-cases (takes_rule db n id a t)) [
          | inr e ↦ rw e tt
          | inl e ↦
              rw e (create_rule-IsWellFormed (new_rule db n id a) t w (fresh n t e) (owner n t e))
        ]
      where
        fresh :
            (n : ℕ) (t : Tables)
            → takes_rule db n id a t ≡ true
            → find_row (is_rule (db.new_id n)) t.rules ≡ none
        fresh n t e = elim (Option-cases (find_row (is_rule (db.new_id n)) t.rules)) [
          | inl p ↦ p
          | inr (r, p) ↦ let bad = rw p at e in ground (arith, bad)
        ]

        owner :
            (n : ℕ) (t : Tables)
            → takes_rule db n id a t ≡ true
            → HasPolicy t.policies (new_rule db n id a)
        owner n t e = ground (arith, e)

    pub Keeps-update_rule :
        (id : Uuid) (a : RuleParams) → Keeps tables_of (IsWellFormed P) (update_rule db id a)
    unfolding update_rule
    Keeps-update_rule id a = Keeps-statement db _ λ n t w.
        let f = updated_rule db n a in
        elim (Option-cases (find_row (is_rule id) t.rules)) [
          | inl e ↦ rw e tt
          | inr (r, e) ↦ elim (Bool-cases (rule_checks a)) [
            | inr bad ↦ rw (e, bad) tt
            | inl good ↦
                rw (e, good)
                  (record {
                    policies = w.policies;
                    rules =
                        IsUniqueBy-update_where rule_key f (λ x. refl) (is_rule id) t.rules w.rules;
                    owners =
                        All-update_where (HasPolicy t.policies) (is_rule id) f t.rules (λ x h. h)
                          w.owners;
                    refs = w.refs;
                  })
          ]
        ]

    pub Keeps-delete_rule : (id : Uuid) → Keeps tables_of (IsWellFormed P) (delete_rule db id)
    unfolding delete_rule
    Keeps-delete_rule id = Keeps-statement db _ λ n t w. drop_rules-IsWellFormed (is_rule id) t w

    pub Keeps-insert_config_version :
        (tenant : Uuid) (kind : Text) (id : Uuid) (content : Raw) (created_by : Text)
        → Keeps tables_of
            (IsWellFormed P)
            (insert_config_version db tenant kind id content created_by)
    unfolding insert_config_version
    Keeps-insert_config_version tenant kind id content created_by = Keeps-statement db _ λ n t w.
        elim (Bool-cases (takes_version tenant kind id t)) [
          | inr e ↦ rw e tt
          | inl e ↦
              rw e (record {
                policies = w.policies;
                rules = w.rules;
                owners = w.owners;
                refs = w.refs;
              })
        ]

    pub Keeps-get_config_version :
        (tenant : Uuid) (kind : Text) (id : Uuid) (n : ℤ)
        → Keeps tables_of (IsWellFormed P) (get_config_version db tenant kind id n)
    unfolding get_config_version
    Keeps-get_config_version tenant kind id n = Keeps-statement db _ λ n t w. one-Ensures t _ w

    pub Keeps-list_config_versions :
        (tenant : Uuid) (kind : Text) (id : Uuid)
        → Keeps tables_of (IsWellFormed P) (list_config_versions db tenant kind id)
    unfolding list_config_versions
    Keeps-list_config_versions tenant kind id = Keeps-statement db _ λ n t w. w
