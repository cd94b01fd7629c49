-- ===== src/Policy/Ruleset/Sorted.antt =====
-- The order of an effective ruleset.
use mathlib.Core.List.{Perm}
use mathlib.Core.Path.{subst}
use qf.Common.{
  ◌≡◌, true, false, some, List, [], ◌∷◌, All, Text, text_lt, ok, inl, inr, ◌⊎◌, arith, Bool-cases,
  Option-cases, ◌>>=◌, >>=-eq-ok, ok_injective, text_lt_asymm, text_lt_trans,
}
use qf.Common.Int.{ltb_ℤ, ltb_ℤ_asymm, ltb_ℤ_trans, ltb_ℤ_connected}
use qf.Common.Sort.{sort_by, IsOrdered, sort_by-IsOrdered, sort_by-perm, IsStrict, then_by-IsStrict}
use qf.Uuid.{pg_uuid_to_str}
use qf.Policy.{Codec, Queries, Uuid, Host, PolicyRow, DefaultPolicy}
use qf.Policy.Matching.{parse_labels}
use qf.Policy.Ruleset.{
  ResolvedRule, EffectiveRuleset, by_policy_priority, by_rule_priority, by_rule_id, rule_before,
  compile, rules_of_policies, resolve_rules_for_policy, labels_or_partial,
}
use qf.Policy.Ruleset.Selected.{AreSelected, rules_of_policies-AreSelected}

policy_priority-IsStrict : IsStrict by_policy_priority
policy_priority-IsStrict = record {
  asymm = λ a b. ltb_ℤ_asymm a.policy.priority b.policy.priority;
  trans = λ a b c. ltb_ℤ_trans a.policy.priority b.policy.priority c.policy.priority;
}

rule_priority-IsStrict : IsStrict by_rule_priority
rule_priority-IsStrict = record {
  asymm = λ a b. ltb_ℤ_asymm a.rule.priority b.rule.priority;
  trans = λ a b c. ltb_ℤ_trans a.rule.priority b.rule.priority c.rule.priority;
}

rule_id-IsStrict : IsStrict by_rule_id
rule_id-IsStrict = record {
  asymm = λ a b. text_lt_asymm (pg_uuid_to_str a.rule.id) (pg_uuid_to_str b.rule.id);
  trans = λ a b c.
      text_lt_trans (pg_uuid_to_str a.rule.id) (pg_uuid_to_str b.rule.id)
        (pg_uuid_to_str c.rule.id);
}

rule_before-IsStrict : IsStrict rule_before
unfolding rule_before
rule_before-IsStrict =
    then_by-IsStrict policy_priority-IsStrict
      (then_by-IsStrict rule_priority-IsStrict rule_id-IsStrict)

-- A rule that may stand before another: a lower policy priority, or the same and a lower rule
-- priority, or both the same and an id that is not later.
abbrev pub Precedes : ResolvedRule → ResolvedRule → Type 0
Precedes a b =
    (ltb_ℤ a.policy.priority b.policy.priority ≡ true)
    ⊎ ((a.policy.priority ≡ b.policy.priority)
        × ((ltb_ℤ a.rule.priority b.rule.priority ≡ true)
            ⊎ ((a.rule.priority ≡ b.rule.priority)
                × (text_lt (pg_uuid_to_str b.rule.id) (pg_uuid_to_str a.rule.id) ≡ false))))

abbrev pub IsSorted : List ResolvedRule → Type 0
IsSorted [] = Unit
IsSorted (r ∷ rs) = All (Precedes r) rs × IsSorted rs

rule_before-Precedes : (a b : ResolvedRule) → rule_before b a ≡ false → Precedes a b
unfolding rule_before
rule_before-Precedes a b h = elim (Bool-cases (ltb_ℤ a.policy.priority b.policy.priority)) [
  | inl p ↦ inl p
  | inr p ↦
      let p' : ltb_ℤ b.policy.priority a.policy.priority ≡ false = ground (arith, h, p) in
      let same = ltb_ℤ_connected a.policy.priority b.policy.priority p p' in
      elim (Bool-cases (ltb_ℤ a.rule.priority b.rule.priority)) [
        | inl r ↦ inr (same, inl r)
        | inr r ↦
            let r' : ltb_ℤ b.rule.priority a.rule.priority ≡ false = ground (arith, h, p, r) in
            inr (
              same,
              inr (
                ltb_ℤ_connected a.rule.priority b.rule.priority r r',
                ground (arith, h, p, p', r, r'),
              ),
            )
      ]
]

IsOrdered-IsSorted : (rs : List ResolvedRule) → IsOrdered rule_before rs → IsSorted rs
IsOrdered-IsSorted [] h = tt
IsOrdered-IsSorted (r ∷ rs) h = (later rs h.0, IsOrdered-IsSorted rs h.1)
  where
    later : (xs : List ResolvedRule) → All (λ y. rule_before y r ≡ false) xs → All (Precedes r) xs
    later [] k = tt
    later (x ∷ xs) k = (rule_before-Precedes r x k.0, later xs k.1)

-- The rules of a host before they are sorted: those of each policy of the tenant whose selector
-- matches the host's labels, and of no other.
pub record IsResolved (codec : Codec) (q : Queries) (tenant_id host_id : Text)
    (resolved : List ResolvedRule) : Type 0 where
  pub tenant : Uuid
  pub id : Uuid
  pub host : Host
  pub policies : List PolicyRow
  pub tenant_scanned : codec.scan_uuid tenant_id ≡ some tenant
  pub id_scanned : codec.scan_uuid host_id ≡ some id
  pub host_found : q.get_host id tenant ≡ some host
  pub policies_found : q.list_policies tenant ≡ some policies
  pub selected :
      AreSelected codec q
        (labels_or_partial codec host.labels (parse_labels codec host.labels))
        policies
        resolved

-- A compiled ruleset is a permutation of the resolved rules, one for each stored rule, of those
-- policies of the tenant whose selector decodes and matches the host's labels. Of any two of its
-- rules the earlier has the lower policy priority, or at the same policy priority the lower rule
-- priority, or where both are the same an id that is not later as text.
pub compile-IsOrdered :
    (codec : Codec) (q : Queries) (tenant_id host_id : Text) (rs : EffectiveRuleset)
    → compile codec q tenant_id host_id ≡ ok rs
    → IsSorted rs.rules
      × ((resolved : List ResolvedRule) × IsResolved codec q tenant_id host_id resolved
          × Perm rs.rules resolved)
unfolding compile
compile-IsOrdered codec q tenant_id host_id rs h = elim (Option-cases (codec.scan_uuid tenant_id)) [
  | inl a ↦ let bad = rw a at h in cc
  | inr (tenant, a) ↦ elim (Option-cases (q.default_policy tenant)) [
    | inl b ↦ let bad = rw (a, b) at h in cc
    | inr (dp, b) ↦ elim (Option-cases (q.list_policies tenant)) [
      | inl c ↦ let bad = rw (a, b, c) at h in cc
      | inr (policies, c) ↦ elim (Option-cases (codec.scan_uuid host_id)) [
        | inl d ↦ let bad = rw (a, b, c, d) at h in cc
        | inr (id, d) ↦ elim (Option-cases (q.get_host id tenant)) [
          | inl e ↦ let bad = rw (a, b, c, d, e) at h in cc
          | inr (host, e) ↦ finish tenant dp policies id host a d c e (rw (a, b, c, d, e) at h)
        ]
      ]
    ]
  ]
]
  where
    finish :
        (tenant : Uuid) (dp : DefaultPolicy) (policies : List PolicyRow) (id : Uuid) (host : Host)
        → codec.scan_uuid tenant_id ≡ some tenant
        → codec.scan_uuid host_id ≡ some id
        → q.list_policies tenant ≡ some policies
        → q.get_host id tenant ≡ some host
        → (rules_of_policies codec q
              (resolve_rules_for_policy codec q tenant_id)
              (labels_or_partial codec host.labels (parse_labels codec host.labels))
              policies
            >>= λ resolved. ok (record {
              rules = sort_by rule_before resolved;
              default_ingress = dp.default_ingress_action;
              default_egress = dp.default_egress_action;
            }))
          ≡ ok rs
        → IsSorted rs.rules
          × ((resolved : List ResolvedRule) × IsResolved codec q tenant_id host_id resolved
              × Perm rs.rules resolved)
    finish tenant dp policies id host tenant_scanned id_scanned found_policies found_host k =
        let (resolved, found, last) = >>=-eq-ok _ _ k in
        let same = ok_injective last in
        (
          subst (λ (r : EffectiveRuleset). IsSorted r.rules) same
              (IsOrdered-IsSorted (sort_by rule_before resolved) (
                sort_by-IsOrdered rule_before rule_before-IsStrict.asymm rule_before-IsStrict.trans
                  resolved)),
          (
            resolved,
            record {
              tenant = tenant;
              id = id;
              host = host;
              policies = policies;
              tenant_scanned = tenant_scanned;
              id_scanned = id_scanned;
              host_found = found_host;
              policies_found = found_policies;
              selected =
                  (rules_of_policies-AreSelected codec q tenant_id _ policies).result resolved
                    found;
            },
            subst (λ (r : EffectiveRuleset). Perm r.rules resolved) same
                (sort_by-perm rule_before resolved),
          ),
        )
