-- ===== src/Api/Policies/Replace.antt =====
-- The transaction of update: what a block that returns has done to the tables.
pub mod Loops
use qf.Common.{
  ℕ, ◌≡◌, refl, ap, sym, ◌∙◌, true, false, ◌&&◌, some, List, [], ◌∷◌, ◌++◌, map, All, codes, Result,
  ok, err, Bool-cases, Option-cases, Result-cases, inl, inr, ◌⊎◌, not, arith, if◌then◌else◌,
}
use mathlib.Core.List.{append-nil, append_assoc}
use qf.Common.Exec.{Exec, pure, or_value, ◌>>=◌, bind-eq-ok}
use qf.Common.Tables.{find_row, delete_where, update_where}
use qf.Policy.{Uuid}
use qf.Store.{
  Database, Tables, Store, StoreError, refused, PolicyRecord, RuleRecord, statement, executed,
  has_next,
}
use qf.Store.Laws.{statement-eq-ok}
use qf.Store.Rules.{
  RuleParams, new_rule, takes_rule, create_rule, delete_rule, drop_rules, is_rule, has_policy,
  rules_of, list_rules_by_policy,
}
use qf.Store.Rules.Keys.{without, IsKeyed, without-rules_of}
use qf.Store.Policies
use qf.Store.Policies.{PolicyParams, update_policy, updated_policy, is_policy}
use qf.Api.{Response, or_fail, api_error}
use qf.Api.Policies.{
  UpdatePolicyRequest, rule_params, policy_params, delete_rules, create_rules, replace_rules,
  replace_policy,
}
use qf.Api.Policies.Replace.Loops.{
  params_of, or_fail-eq-ok, added_after, rules_after, existing_deleted, not_updated, stored,
  delete_rules-eq-ok, create_rules-eq-ok,
}

-- What an update by the request makes of the tables: the policy's row has the request's columns and
-- the next version, its rules are those of the request, in its order, and all other rows are kept.
pub record Replaced (db : Database) (id tenant : Uuid) (body : UpdatePolicyRequest)
    (before after : Tables) (p : PolicyRecord) : Type 0 where
  pub number : ℕ
  pub old : PolicyRecord
  pub added : List RuleRecord
  pub there : find_row (is_policy id tenant) before.policies ≡ some old
  pub updated : p ≡ updated_policy db number (policy_params body.policy) old
  pub tables : after ≡ record before {
    policies =
        update_where
          (is_policy id tenant)
          (updated_policy db number (policy_params body.policy))
          before.policies;
    rules = delete_where (has_policy id) before.rules ++ added;
    refs = after.refs;
  }
  pub params : map params_of added ≡ map (stored db) body.rules
  pub owner : All (λ (r : RuleRecord). r.rule.policy_id ≡ id) added

module _ (db : Database) (id tenant : Uuid) where
  abbrev set_policy : PolicyParams → ℕ → Tables → Result StoreError (Tables × PolicyRecord)
  set_policy a n u =
      Policies.set_policy db n id tenant a u (find_row (is_policy id tenant) u.policies)

  update_policy-eq-ok :
      (a : PolicyParams) (s t : Store) (p : PolicyRecord)
      → update_policy db id tenant a s ≡ (t, ok p)
      → (old : PolicyRecord) × (find_row (is_policy id tenant) s.tables.policies ≡ some old)
        × (p ≡ updated_policy db s.statements a old)
        × (t
            ≡ executed
                (record s.tables {
                  policies =
                      update_where
                        (is_policy id tenant)
                        (updated_policy db s.statements a)
                        s.tables.policies;
                })
                s)
  unfolding update_policy
  update_policy-eq-ok a s t p h =
      let (u, q, e) = statement-eq-ok db (set_policy a) s t p h in
      elim (Option-cases (find_row (is_policy id tenant) s.tables.policies)) [
        | inl none' ↦ let bad = rw none' at q in cc
        | inr (old, found) ↦ elim (Bool-cases (has_next old.current_version)) [
          | inr full ↦ let bad = rw (found, full) at q in cc
          | inl room ↦
              let done = rw (found, room) at q in
              (old, found, ground (arith, done), ground (arith, done, e))
        ]
      ]

  list_rules-value :
      (s t : Store) (rs : List RuleRecord)
      → list_rules_by_policy db id s ≡ (t, ok rs)
      → (rs ≡ rules_of id s.tables) × (t ≡ executed s.tables s)
  unfolding list_rules_by_policy
  list_rules-value s t rs h =
      let (u, q, e) = statement-eq-ok db (λ n u. ok (u, rules_of id u)) s t rs h in
      (ground (arith, q), ground (arith, q, e))

  list_rules-fails :
      (s : Store) (e : StoreError)
      → (list_rules_by_policy db id s).1 ≡ err e
      → s.in_transaction ≡ true
      → (list_rules_by_policy db id s).0.aborted ≡ true
  unfolding list_rules_by_policy statement
  list_rules-fails s e h k = elim (Bool-cases (db.up s.statements && not s.aborted)) [
    | inl p ↦ let bad = rw p at h in cc
    | inr p ↦ rw (p, k) refl
  ]

  -- A read that fails in the transaction is not looked at, but then the transaction is aborted.
  existing-eq-ok :
      (s t : Store) (rs : List RuleRecord)
      → or_value {F = Response} [] (list_rules_by_policy db id) s ≡ (t, ok rs)
      → s.in_transaction ≡ true
      → (t.aborted ≡ true) ⊎ ((rs ≡ rules_of id s.tables) × (t ≡ executed s.tables s))
  unfolding or_value
  existing-eq-ok s t rs h k = elim (Result-cases (list_rules_by_policy db id s).1) [
    | inl (xs, p) ↦
        let same = rw (or_value, p) at h in
        let (rows, state) =
          list_rules-value s (list_rules_by_policy db id s).0 xs (ground (arith, p)) in
        inr (ground (arith, same, rows), ground (arith, same, state))
    | inr (e, p) ↦
        let same = rw (or_value, p) at h in inl (ground (arith, same, list_rules-fails s e p k))
  ]

  replace_rules-eq-ok :
      (rules : List RuleParams) (p q : PolicyRecord) (es : List RuleRecord) (s t : Store)
      → replace_rules db id rules p es s ≡ (t, ok q)
      → (added : List RuleRecord) × (q ≡ p)
        × (t.tables
            ≡ record s.tables { rules = without es s.tables.rules ++ added; refs = t.tables.refs })
        × (t.aborted ≡ s.aborted)
        × (map params_of added ≡ map (stored db) rules)
        × All (λ (r : RuleRecord). r.rule.policy_id ≡ id) added
  unfolding replace_rules pure
  replace_rules-eq-ok rules p q es s t h =
      let (s₁, x₁, h₁, r₁) =
        bind-eq-ok (λ _. create_rules db id rules >>= λ _. pure p) (delete_rules db es) s t h in
      let (s₂, x₂, h₂, r₂) = bind-eq-ok (λ _. pure p) (create_rules db id rules) s₁ t r₁ in
      let (tables, aborted) = delete_rules-eq-ok db es s s₁ h₁ in
      let (added, tables', aborted', params, ids) = create_rules-eq-ok db id rules s₁ s₂ h₂ in
      let same : s₂ ≡ t = ground (arith, r₂) in
      (
        added,
        ground (arith, r₂),
        added_after s.tables s₁.tables t.tables (without es s.tables.rules) added tables
            (ap (λ (x : Store). x.tables) (sym same) ∙ tables'),
        ap (λ (x : Store). x.aborted) (sym same) ∙ aborted' ∙ aborted,
        params,
        ids,
      )

  -- The block of the transaction, where it returns and the transaction is not aborted.
  pub replace_policy-Replaced :
      (body : UpdatePolicyRequest) (s t : Store) (p : PolicyRecord)
      → IsKeyed s.tables.rules
      → s.in_transaction ≡ true
      → replace_policy db id tenant body s ≡ (t, ok p)
      → t.aborted ≡ false
      → Replaced db id tenant body s.tables t.tables p
  unfolding replace_policy
  replace_policy-Replaced body s t p u k h live =
      let params = policy_params body.policy in
      let rest = λ (p : PolicyRecord) (es : List RuleRecord). replace_rules db id body.rules p es in
      let (s₁, p₁, h₁, r₁) =
        bind-eq-ok (λ p. or_value [] (list_rules_by_policy db id) >>= rest p)
          (or_fail not_updated (update_policy db id tenant params)) s t h in
      let (s₂, es, h₂, r₂) =
        bind-eq-ok (rest p₁) (or_value [] (list_rules_by_policy db id)) s₁ t r₁ in
      let (old, there, updated, state₁) =
        update_policy-eq-ok params s s₁ p₁
          (or_fail-eq-ok not_updated (update_policy db id tenant params) s s₁ p₁ h₁) in
      let (added, same, tables, aborted, rows, owner) =
        replace_rules-eq-ok body.rules p₁ p es s₂ t r₂ in
      elim (existing-eq-ok s₁ s₂ es h₂ (rw state₁ k)) [
        | inl bad ↦ let dead : t.aborted ≡ true = aborted ∙ bad in cc
        | inr (read, state₂) ↦
            let tables₁ = ap (λ (x : Store). x.tables) state₁ in
            let tables₂ = ap (λ (x : Store). x.tables) state₂ in
            record {
              number = s.statements;
              old = old;
              added = added;
              there = there;
              updated = same ∙ updated;
              tables = rules_after s.tables s₂.tables t.tables _ _ _ (tables₂ ∙ tables₁) tables (
                  existing_deleted id s.tables s₁.tables s₂.tables _ es added u tables₁ tables₂
                    read);
              params = rows;
              owner = owner;
            }
      ]
