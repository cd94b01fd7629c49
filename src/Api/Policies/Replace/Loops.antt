-- ===== src/Api/Policies/Replace/Loops.antt =====
-- The loops over the rules in the transaction of update, when they return.
use qf.Common.{
  ◌≡◌, refl, ap, sym, ◌∙◌, List, [], ◌∷◌, ◌++◌, map, All, codes, ok, err, Bool-cases, Result-cases,
  inl, inr, arith, if◌then◌else◌,
}
use mathlib.Core.List.{append-nil, append_assoc}
use qf.Common.Exec.{Exec, pure, bind-eq-ok}
use qf.Common.Tables.{delete_where}
use qf.Policy.{Uuid}
use qf.Store.{Database, Tables, Store, StoreError, refused, PolicyRecord, RuleRecord, executed}
use qf.Store.Laws.{statement-eq-ok}
use qf.Store.Rules.{
  RuleParams, new_rule, takes_rule, create_rule, delete_rule, drop_rules, is_rule, has_policy,
  rules_of,
}
use qf.Store.Rules.Keys.{without, IsKeyed, without-rules_of}
use qf.Api.{Response, or_fail, api_error}
use qf.Api.Policies.{rule_params, delete_rules, create_rules}

-- The columns that a request gives.
abbrev pub params_of : RuleRecord → RuleParams
params_of r = record {
  name = r.rule.name;
  priority = r.rule.priority;
  direction = r.rule.direction;
  matching = r.rule.matching;
  state = r.rule.state;
  action = r.rule.action;
  log = r.rule.log;
  silent = r.rule.silent;
}

pub or_fail-eq-ok :
    {S A : Type 0} (e : Response) (m : Exec S StoreError A) (s t : S) (a : A)
    → or_fail e m s ≡ (t, ok a)
    → m s ≡ (t, ok a)
unfolding or_fail
or_fail-eq-ok e m s t a h = elim (Result-cases (m s).1) [
  | inl (b, p) ↦ let same = rw p at h in ground (arith, p, same)
  | inr (x, p) ↦ let bad = rw p at h in cc
]

-- Rows added after others were deleted, and after a row was updated.
pub added_after :
    (t t₁ t₂ : Tables) (kept added : List RuleRecord)
    → t₁ ≡ record t { rules = kept; refs = t₁.refs }
    → t₂ ≡ record t₁ { rules = t₁.rules ++ added }
    → t₂ ≡ record t { rules = kept ++ added; refs = t₂.refs }
added_after t t₁ t₂ kept added p q =
    q
    ∙ (λ i. record (p i) { rules = (p i).rules ++ added })
    ∙ (λ i. record t { rules = kept ++ added; refs = sym (ap (λ (x : Tables). x.refs) q) i })

pub rules_after :
    (t t₁ t₂ : Tables) (ps : List PolicyRecord) (rs rs' : List RuleRecord)
    → t₁ ≡ record t { policies = ps }
    → t₂ ≡ record t₁ { rules = rs; refs = t₂.refs }
    → rs ≡ rs'
    → t₂ ≡ record t { policies = ps; rules = rs'; refs = t₂.refs }
rules_after t t₁ t₂ ps rs rs' p q r = q ∙ (λ i. record (p i) { rules = r i; refs = t₂.refs })

pub existing_deleted :
    (id : Uuid) (t t₁ t₂ : Tables) (ps : List PolicyRecord) (es added : List RuleRecord)
    → IsKeyed t.rules
    → t₁ ≡ record t { policies = ps }
    → t₂ ≡ t₁
    → es ≡ rules_of id t₁
    → without es t₂.rules ++ added ≡ delete_where (has_policy id) t.rules ++ added
unfolding rules_of
existing_deleted id t t₁ t₂ ps es added u p q r =
    (λ i. without (r i) (q i).rules ++ added)
    ∙ (λ i. without (rules_of id (p i)) (p i).rules ++ added)
    ∙ ap (λ xs. xs ++ added) (without-rules_of id t u)

abbrev not_deleted : Response
not_deleted = api_error 500 (codes "delete rule")

abbrev pub not_updated : Response
not_updated = api_error 500 (codes "update policy")

abbrev not_created : Response
not_created = api_error 500 (codes "create rule")

module _ (db : Database) where
  -- A rule of a request as its row holds it.
  abbrev pub stored : RuleParams → RuleParams
  stored a = record (rule_params a) { matching = db.jsonb (rule_params a).matching }

  delete_rule-eq-ok :
      (id : Uuid) (s t : Store)
      → delete_rule db id s ≡ (t, ok tt)
      → t ≡ executed (drop_rules (is_rule id) s.tables) s
  unfolding delete_rule
  delete_rule-eq-ok id s t h =
      let (u, p, q) = statement-eq-ok db (λ n u. ok (drop_rules (is_rule id) u, tt)) s t tt h in
      ground (arith, p, q)

  create_rule-eq-ok :
      (id : Uuid) (a : RuleParams) (s t : Store) (r : RuleRecord)
      → create_rule db id a s ≡ (t, ok r)
      → t
        ≡ executed
            (record s.tables { rules = s.tables.rules ++ new_rule db s.statements id a ∷ [] })
            s
  unfolding create_rule
  create_rule-eq-ok id a s t r h =
      let (u, p, q) =
        statement-eq-ok db
          (λ n u.
            if takes_rule db n id a u
            then ok (record u { rules = u.rules ++ new_rule db n id a ∷ [] }, new_rule db n id a)
            else err refused)
          s t r h in
      elim (Bool-cases (takes_rule db s.statements id a s.tables)) [
        | inl e ↦ let done = rw e at p in ground (arith, done, q)
        | inr e ↦ let bad = rw e at p in cc
      ]

  pub delete_rules-eq-ok :
      (es : List RuleRecord) (s t : Store)
      → delete_rules db es s ≡ (t, ok tt)
      → (t.tables ≡ record s.tables { rules = without es s.tables.rules; refs = t.tables.refs })
        × (t.aborted ≡ s.aborted)
  unfolding delete_rules drop_rules pure
  delete_rules-eq-ok [] s t h = (ground (arith, h), ground (arith, h))
  delete_rules-eq-ok (e ∷ es) s t h =
      let (u, x, p, q) =
        bind-eq-ok (λ _. delete_rules db es) (or_fail not_deleted (delete_rule db e.rule.id)) s t
          h in
      let here =
        delete_rule-eq-ok e.rule.id s u
          (or_fail-eq-ok not_deleted (delete_rule db e.rule.id) s u tt p) in
      let (tables, aborted) = delete_rules-eq-ok es u t q in
      (tables ∙ rw here refl, aborted ∙ rw here refl)

  -- The rows that the loop of update adds.
  pub create_rules-eq-ok :
      (id : Uuid) (as' : List RuleParams) (s t : Store)
      → create_rules db id as' s ≡ (t, ok tt)
      → (added : List RuleRecord) × (t.tables ≡ record s.tables { rules = s.tables.rules ++ added })
        × (t.aborted ≡ s.aborted)
        × (map params_of added ≡ map stored as')
        × All (λ (r : RuleRecord). r.rule.policy_id ≡ id) added
  unfolding create_rules pure
  create_rules-eq-ok id [] s t h =
      ([], rw append-nil (ground (arith, h)), ground (arith, h), refl, tt)
  create_rules-eq-ok id (a ∷ as') s t h =
      let (u, r, p, q) =
        bind-eq-ok (λ _. create_rules db id as')
          (or_fail not_created (create_rule db id (rule_params a))) s t h in
      let here =
        create_rule-eq-ok id (rule_params a) s u r
          (or_fail-eq-ok not_created (create_rule db id (rule_params a)) s u r p) in
      let (added, tables, aborted, params, ids) = create_rules-eq-ok id as' u t q in
      let row = new_rule db s.statements id (rule_params a) in
      (
        row ∷ added,
        tables ∙ rw (here, append_assoc) refl,
        aborted ∙ rw here refl,
        ap (◌∷◌ (stored a)) params,
        (refl, ids),
      )
