-- ===== src/Policy/DryRun/Same.antt =====
-- A preview of the rules that a policy already has.
use qf.Common.{
  ℕ, ◌≡◌, ◌∙◌, refl, sym, Bool, true, false, ◌&&◌, not, Option, none, some, List, [], ◌∷◌, ◌++◌,
  map, Text, text_eq, text_eq_refl, length, All, Result, ok, ◌==◌, Bool-cases, Result-cases,
  Option-cases, inl, inr, arith,
}
use qf.Uuid.{pg_uuid_to_str}
use qf.Policy.{Uuid, PolicyRow, Rule, Host, Labels, Codec, Queries, PolicyError}
use qf.Policy.Matching.{contains, parse_labels}
use qf.Policy.Ruleset.{
  ResolvedRule, EffectiveRuleset, resolve_rules, resolve_rules_for_policy, rules_of_policies,
  compile, labels_or_partial,
}
use qf.Policy.DryRun.{
  DryRunRuleSpec, RuleKey, key_eq, is_missing, synthetic_rule, resolve_override_rules,
  override_rules_of, compile_with_override, is_unchanged, diff_rulesets, preview_hosts,
  dry_run_preview,
}
use qf.Policy.DryRun.Diff.{last_key, differs, diff_rulesets-IsDiff}

-- The spec that a client sends back for a rule of the database.
abbrev pub spec_of : Rule → DryRunRuleSpec
spec_of r = record {
  id = pg_uuid_to_str r.id;
  name = r.name;
  priority = r.priority;
  direction = r.direction;
  matching = r.matching;
  state = r.state;
  action = r.action;
  log = r.log;
  silent = r.silent;
}

some_then : (xs ys : Text) (c : ℕ) → (length (xs ++ (c ∷ ys)) == 0) ≡ false
some_then [] ys c = ground arith
some_then (x ∷ xs) ys c = ground arith

pg_uuid_to_str_nonempty : (u : Uuid) → (length (pg_uuid_to_str u) == 0) ≡ false
unfolding pg_uuid_to_str
pg_uuid_to_str_nonempty u = some_then _ _ _

key_eq_self : (k : RuleKey) → key_eq k k ≡ true
key_eq_self k = rw (text_eq_refl k.action, text_eq_refl k.dir) refl

differs_self : (o : Option RuleKey) → differs o o ≡ false
differs_self none = refl
differs_self (some k) = rw (key_eq_self k) refl

none_contained : (xs : List Text) → ((v : Text) → contains xs v ≡ false) → length xs ≡ 0
unfolding contains
none_contained [] h = refl
none_contained (x ∷ xs) h =
    let bad = h x in let me = text_eq_refl x in absurd (ground (arith, bad, me))

-- A ruleset against itself.
is_unchanged-diff_rulesets : (rs : EffectiveRuleset) → is_unchanged (diff_rulesets rs rs) ≡ true
is_unchanged-diff_rulesets rs =
    let d = diff_rulesets-IsDiff rs rs in
    let missing = λ (o : Option RuleKey). self (is_missing o) in
    rw
      (
        none_contained (diff_rulesets rs rs).added (λ v. d.added v ∙ missing (last_key v rs.rules)),
        none_contained (diff_rulesets rs rs).removed
            (λ v. d.removed v ∙ missing (last_key v rs.rules)),
        none_contained (diff_rulesets rs rs).changed
            (λ v. d.changed v ∙ differs_self (last_key v rs.rules)),
      )
      refl
  where
    self : (b : Bool) → not b && b ≡ false
    self b = ground arith

module _ (codec : Codec) (q : Queries) where
  -- A rule as the database holds it: it belongs to the policy, its id is a UUID that scans, and its
  -- direction and action are set.
  pub record IsStored (p : PolicyRow) (r : Rule) : Type 0 where
    pub policy : r.policy_id ≡ p.id
    pub id : codec.scan_uuid (pg_uuid_to_str r.id) ≡ some r.id
    pub direction : (length r.direction == 0) ≡ false
    pub action : (length r.action == 0) ≡ false

  -- The specs are those of the policy's rules.
  pub record IsOwn (specs : List DryRunRuleSpec) (p : PolicyRow) : Type 0 where
    pub id : Uuid
    pub rules : List Rule
    pub scanned : codec.scan_uuid (pg_uuid_to_str p.id) ≡ some id
    pub listed : q.rules_by_policy id ≡ some rules
    pub same : specs ≡ map spec_of rules
    pub stored : All (IsStored p) rules

  synthetic_rule-spec_of :
      (p : PolicyRow) (r : Rule) → IsStored p r → synthetic_rule codec q p (spec_of r) ≡ r
  unfolding synthetic_rule
  synthetic_rule-spec_of p r s =
      rw (pg_uuid_to_str_nonempty r.id, s.id, s.direction, s.action, sym s.policy) refl

  resolve_override_rules_same :
      (tenant_id : Text) (p : PolicyRow) (rules : List Rule)
      → All (IsStored p) rules
      → resolve_override_rules codec q tenant_id p (map spec_of rules)
        ≡ resolve_rules codec q tenant_id p rules
  unfolding resolve_override_rules resolve_rules
  resolve_override_rules_same tenant_id p [] h = refl
  resolve_override_rules_same tenant_id p (r ∷ rs) h =
      rw (synthetic_rule-spec_of p r h.0, resolve_override_rules_same tenant_id p rs h.1) refl

  override_rules_of_same :
      (tenant_id policy_id : Text) (specs : List DryRunRuleSpec) (p : PolicyRow)
      → (text_eq (pg_uuid_to_str p.id) policy_id ≡ true → IsOwn specs p)
      → override_rules_of codec q tenant_id policy_id specs p
        ≡ resolve_rules_for_policy codec q tenant_id p
  unfolding override_rules_of resolve_rules_for_policy
  override_rules_of_same tenant_id policy_id specs p own =
      elim (Bool-cases (text_eq (pg_uuid_to_str p.id) policy_id)) [
        | inr e ↦ rw e refl
        | inl e ↦
            let o = own e in
            rw (e, o.scanned, o.listed, o.same)
              (resolve_override_rules_same tenant_id p o.rules o.stored)
      ]

  rules_of_policies_same :
      (f g : PolicyRow → Result PolicyError (List ResolvedRule)) (labels : Labels)
      (ps : List PolicyRow)
      → All (λ p. f p ≡ g p) ps
      → rules_of_policies codec q f labels ps ≡ rules_of_policies codec q g labels ps
  unfolding rules_of_policies
  rules_of_policies_same f g labels [] h = refl
  rules_of_policies_same f g labels (p ∷ ps) h =
      rw (h.0, rules_of_policies_same f g labels ps h.1) refl

  -- Compiling with the rules that the policy already has is compiling: same ruleset, or same error.
  pub compile_with_override_same :
      (tenant_id host_id policy_id : Text) (specs : List DryRunRuleSpec)
      → ((tenant : Uuid) (ps : List PolicyRow)
          → q.list_policies tenant ≡ some ps
          → All (λ p. text_eq (pg_uuid_to_str p.id) policy_id ≡ true → IsOwn specs p) ps)
      → compile_with_override codec q tenant_id host_id policy_id specs
        ≡ compile codec q tenant_id host_id
  unfolding compile_with_override compile
  compile_with_override_same tenant_id host_id policy_id specs own =
      elim (Option-cases (codec.scan_uuid tenant_id)) [
        | inl a ↦ rw a refl
        | inr (tenant, a) ↦ elim (Option-cases (q.list_policies tenant)) [
          | inl b ↦ rw (a, b) refl
          | inr (ps, b) ↦
              let each = each_same tenant_id policy_id specs ps (own tenant ps b) in
              elim (Option-cases (q.default_policy tenant)) [
                | inl c ↦ rw (a, b, c) refl
                | inr (dp, c) ↦ elim (Option-cases (codec.scan_uuid host_id)) [
                  | inl d ↦ rw (a, b, c, d) refl
                  | inr (id, d) ↦ elim (Option-cases (q.get_host id tenant)) [
                    | inl e ↦ rw (a, b, c, d, e) refl
                    | inr (h, e) ↦
                        let labels =
                          labels_or_partial codec h.labels (parse_labels codec h.labels) in
                        rw
                          (
                            a,
                            b,
                            c,
                            d,
                            e,
                            rules_of_policies_same
                                (override_rules_of codec q tenant_id policy_id specs)
                                (resolve_rules_for_policy codec q tenant_id) labels ps each,
                          )
                          refl
                  ]
                ]
              ]
        ]
      ]
    where
      each_same :
          (t p : Text) (specs : List DryRunRuleSpec) (ps : List PolicyRow)
          → All (λ r. text_eq (pg_uuid_to_str r.id) p ≡ true → IsOwn specs r) ps
          → All
              (λ r. override_rules_of codec q t p specs r ≡ resolve_rules_for_policy codec q t r)
              ps
      each_same t p specs [] h = tt
      each_same t p specs (r ∷ ps) h =
          (override_rules_of_same t p specs r h.0, each_same t p specs ps h.1)

  preview_hosts_same :
      (tenant_id policy_id : Text) (specs : List DryRunRuleSpec)
      → ((host_id : Text)
          → compile_with_override codec q tenant_id host_id policy_id specs
            ≡ compile codec q tenant_id host_id)
      → (hs : List Host) → preview_hosts codec q tenant_id policy_id specs hs ≡ []
  unfolding preview_hosts
  preview_hosts_same tenant_id policy_id specs same [] = refl
  preview_hosts_same tenant_id policy_id specs same (h ∷ hs) =
      elim (Result-cases (compile codec q tenant_id (pg_uuid_to_str h.id))) [
        | inl (rs, e) ↦
            rw (same (pg_uuid_to_str h.id), e, is_unchanged-diff_rulesets rs)
              (preview_hosts_same tenant_id policy_id specs same hs)
        | inr (x, e) ↦
            rw (same (pg_uuid_to_str h.id), e)
              (preview_hosts_same tenant_id policy_id specs same hs)
      ]

  -- Previewing the rules that the policy already has reports no host. Where the tenant's id
  -- scans, its hosts can be listed, and each rule of the policy belongs to it, has an id that
  -- scans, and a direction and an action.
  pub dry_run_preview_same :
      (tenant_id policy_id : Text) (specs : List DryRunRuleSpec) (tenant : Uuid) (hosts : List Host)
      → codec.scan_uuid tenant_id ≡ some tenant
      → q.list_hosts tenant ≡ some hosts
      → ((t : Uuid) (ps : List PolicyRow)
          → q.list_policies t ≡ some ps
          → All (λ p. text_eq (pg_uuid_to_str p.id) policy_id ≡ true → IsOwn specs p) ps)
      → dry_run_preview codec q tenant_id policy_id specs
        ≡ ok (record { affected_count = 0; hosts = [] })
  unfolding dry_run_preview
  dry_run_preview_same tenant_id policy_id specs tenant hosts a b own =
      rw
        (
          a,
          b,
          preview_hosts_same tenant_id policy_id specs
              (λ h. compile_with_override_same tenant_id h policy_id specs own) hosts,
        )
        refl
