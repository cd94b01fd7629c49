-- ===== src/Api/Policies/Update.antt =====
-- PUT /policies/{id} is all or nothing.
use qf.Common.{
  ℕ, ◌≡◌, refl, ap, sym, ◌∙◌, Bool, true, false, ◌&&◌, some, List, [], ◌∷◌, ◌++◌, map, Text,
  text_eq, text_eq_iff, codes, length, ◌==◌, Result, ok, err, Bool-cases, Option-cases,
  Result-cases, inl, inr, ◌⊎◌, arith, All, if◌then◌else◌,
}
use mathlib.Core.Path.{subst}
use mathlib.Core.List.{append-nil}
use qf.Common.Exec.{◌>>=◌, lift, raise_if}
use qf.Common.Tables.{find_row, rows_where, delete_where}
use qf.Common.Tables.Laws.{
  rows_where-append, rows_where-delete_where, rows_where-delete_where_self, rows_where_all,
  rows_where_none, find_row-update_where, find_row-update_where_self,
}
use qf.Common.Int.{inc}
use qf.Policy.{Uuid, Codec}
use qf.Store.{Database, Tables, PolicyRecord, RuleRecord}
use qf.Store.Rules.{RuleParams, has_policy}
use qf.Store.Rules.Keys.{IsKeyed}
use qf.Store.Policies.{PolicyParams, is_policy, updated_policy}
use qf.Api.{Request, Response, Server, tenant_from_request, uuid_param, decode_json, api_error}
use qf.Api.Policies.{UpdatePolicyRequest, update, save, actor, policy_params}
use qf.Api.Policies.Replace.{Replaced}
use qf.Api.Policies.Replace.Loops.{stored, params_of}
use qf.Api.Policies.Save.{IsKept, Outcome, unchanged, replaced, save-Outcome}

module _ (db : Database) (id tenant : Uuid) (body : UpdatePolicyRequest) (before after : Tables)
    (p : PolicyRecord) (r : Replaced db id tenant body before after p) where
  owned :
      (xs : List RuleRecord)
      → All (λ (x : RuleRecord). x.rule.policy_id ≡ id) xs
      → All (λ x. has_policy id x ≡ true) xs
  owned [] h = tt
  owned (x ∷ xs) h = ((text_eq_iff x.rule.policy_id id).1 h.0, owned xs h.1)

  foreign :
      (j : Uuid)
      → text_eq id j ≡ false
      → (xs : List RuleRecord) → All (λ (x : RuleRecord). x.rule.policy_id ≡ id) xs
      → All (λ x. has_policy j x ≡ false) xs
  foreign j e [] h = tt
  foreign j e (x ∷ xs) h = (ap (λ i. text_eq i j) h.0 ∙ e, foreign j e xs h.1)

  rules_after : after.rules ≡ delete_where (has_policy id) before.rules ++ r.added
  rules_after = ap (λ (t : Tables). t.rules) r.tables

  -- The policy has the request's rules, in the request's order.
  pub own_rules :
      map params_of (rows_where (has_policy id) after.rules) ≡ map (stored db) body.rules
  own_rules =
      ap (λ rs. map params_of (rows_where (has_policy id) rs)) rules_after
      ∙ rw
          (
            rows_where-append (has_policy id) (delete_where (has_policy id) before.rules) r.added,
            rows_where-delete_where_self (has_policy id) before.rules,
            rows_where_all (has_policy id) r.added (owned r.added r.owner),
          )
          r.params

  apart :
      (j : Uuid)
      → text_eq id j ≡ false
      → (x : RuleRecord) → has_policy j x ≡ true
      → has_policy id x ≡ false
  apart j e x h =
      ground
        (arith, text_eq_iff x.rule.policy_id id, text_eq_iff x.rule.policy_id j, text_eq_iff id j)

  pub other_rules :
      (j : Uuid)
      → text_eq id j ≡ false
      → rows_where (has_policy j) after.rules ≡ rows_where (has_policy j) before.rules
  other_rules j e =
      ap (rows_where (has_policy j)) rules_after
      ∙ rw
          (
            rows_where-append (has_policy j) (delete_where (has_policy id) before.rules) r.added,
            rows_where-delete_where (has_policy j) (has_policy id) before.rules (apart j e),
            rows_where_none (has_policy j) r.added (foreign j e r.added r.owner),
          )
          (append-nil (rows_where (has_policy j) before.rules))

  columns_kept :
      (j u : Uuid) (x : PolicyRecord)
      → is_policy j u (updated_policy db r.number (policy_params body.policy) x) ≡ is_policy j u x
  columns_kept j u x = refl

  -- The policy's row is the one that is answered, and the other rows are as they were.
  pub own_policy : find_row (is_policy id tenant) after.policies ≡ some p
  own_policy =
      ap (λ (t : Tables). find_row (is_policy id tenant) t.policies) r.tables
      ∙ find_row-update_where_self (is_policy id tenant)
          (updated_policy db r.number (policy_params body.policy)) before.policies r.old
          (columns_kept id tenant) r.there
      ∙ ap some (sym r.updated)

  pub other_policies :
      (j u : Uuid)
      → (text_eq id j && text_eq tenant u) ≡ false
      → find_row (is_policy j u) after.policies ≡ find_row (is_policy j u) before.policies
  other_policies j u e =
      ap (λ (t : Tables). find_row (is_policy j u) t.policies) r.tables
      ∙ find_row-update_where (is_policy j u) (is_policy id tenant)
          (updated_policy db r.number (policy_params body.policy)) before.policies
          (columns_kept j u) distinct
    where
      distinct : (x : PolicyRecord) → is_policy j u x ≡ true → is_policy id tenant x ≡ false
      distinct x h = ground (
        arith,
        text_eq_iff x.policy.id j,
        text_eq_iff x.policy.id id,
        text_eq_iff x.tenant_id u,
        text_eq_iff x.tenant_id tenant,
        text_eq_iff id j,
        text_eq_iff tenant u,
      )

module _ {db : Database} {id tenant : Uuid} {body : UpdatePolicyRequest} {email : Text}
    {cascade : Bool} {process_tenant : Uuid} {s t : Server} {r : Result Response Response} where
  Outcome-ok :
      (a : Response)
      → Outcome db id tenant body email cascade process_tenant s t r
      → r ≡ ok a
      → (p : PolicyRecord) × Replaced db id tenant body s.store.tables t.store.tables p
  Outcome-ok a (unchanged e x k) h = let bad : err e ≡ ok a = sym x ∙ h in cc
  Outcome-ok a (replaced p old saved whole x k) h = (p, whole)

  Outcome-err :
      (e : Response)
      → Outcome db id tenant body email cascade process_tenant s t r
      → r ≡ err e
      → IsKept s t
  Outcome-err e (unchanged x y k) h = k
  Outcome-err e (replaced p old saved whole x k) h = let bad = sym x ∙ h in cc

module _ (codec : Codec) (db : Database) (cascade : Bool) (process_tenant : Uuid)
    (req : Request UpdatePolicyRequest) (s : Server) where
  abbrev after : Server × Result Response Response
  after = update codec db cascade process_tenant req s

  -- A request that is not refused is saved.
  update-cases :
      ((e : Response) × (after ≡ (s, err e)))
      ⊎ ((tenant id : Uuid) × (body : UpdatePolicyRequest) × (tenant_from_request codec req
            ≡ ok tenant)
          × (uuid_param codec (codes "id") req.id ≡ ok id)
          × (req.body ≡ some body)
          × (after ≡ save db cascade process_tenant id tenant body (actor req.claims) s))
  unfolding update ◌>>=◌ lift raise_if decode_json
  update-cases = elim (Result-cases (tenant_from_request codec req)) [
    | inr (e, p) ↦ inl (e, rw p refl)
    | inl (tenant, p) ↦ elim (Result-cases (uuid_param codec (codes "id") req.id)) [
      | inr (e, q) ↦ inl (e, rw (p, q) refl)
      | inl (id, q) ↦ elim (Option-cases req.body) [
        | inl r ↦ inl (api_error 400 (codes "invalid JSON"), rw (p, q, r) refl)
        | inr (body, r) ↦ elim (Bool-cases (length body.policy.name == 0)) [
          | inl n ↦ inl (api_error 400 (codes "name required"), rw (p, q, r, n) refl)
          | inr n ↦ inr (tenant, id, body, p, q, r, rw (p, q, r, n) refl)
        ]
      ]
    ]
  ]

  -- Where no two rules have one id: if PUT answers with an error, no row has changed and no
  -- cascade or snapshot has been started, wherever the error has happened.
  pub update-IsKept :
      (e : Response) → IsKeyed s.store.tables.rules → after.1 ≡ err e → IsKept s after.0
  update-IsKept e keyed h = elim update-cases [
    | inl (x, p) ↦ rw p (refl, refl)
    | inr (tenant, id, body, p, q, r, same) ↦
        subst (λ (x : Server × Result Response Response). IsKept s x.0) (sym same)
          (Outcome-err e
            (save-Outcome db cascade process_tenant id tenant body (actor req.claims) s keyed)
            (ap (λ (x : Server × Result Response Response). x.1) (sym same) ∙ h))
  ]

  -- The row of the policy: the columns of the body, `{}` for an empty selector, and the next version.
  abbrev pub row_after : ℕ → PolicyParams → PolicyRecord → PolicyRecord
  row_after n a p = record {
    policy = record {
      id = p.policy.id;
      name = a.name;
      priority = a.priority;
      selector = db.jsonb (if length a.selector == 0 then codes "{}" else a.selector);
    };
    tenant_id = p.tenant_id;
    description = a.description;
    current_version = inc p.current_version;
    created_at = p.created_at;
    updated_at = db.now n;
  }

  -- The columns of a rule: those of the body, with ingress, deny and `{}` for what is empty.
  abbrev pub rule_after : RuleParams → RuleParams
  rule_after a = record {
    name = a.name;
    priority = a.priority;
    direction = if length a.direction == 0 then codes "ingress" else a.direction;
    matching = db.jsonb (if length a.matching == 0 then codes "{}" else a.matching);
    state = a.state;
    action = if length a.action == 0 then codes "deny" else a.action;
    log = a.log;
    silent = a.silent;
  }

  -- What a PUT has done that answers with the policy: the policy of the path and the tenant of the
  -- request has the columns of the body and the next version, its rules are those of the body in
  -- their order, with the defaults filled in, and every other policy and its rules are as before.
  abbrev pub IsUpdated : Uuid → Uuid → UpdatePolicyRequest → Tables → Tables → Type 0
  IsUpdated id tenant body old new =
      (p : PolicyRecord) × (q : PolicyRecord) × (n : ℕ) × (find_row (is_policy id tenant)
          old.policies
        ≡ some p)
      × (find_row (is_policy id tenant) new.policies ≡ some q)
      × (q ≡ row_after n body.policy p)
      × (map params_of (rows_where (has_policy id) new.rules) ≡ map rule_after body.rules)
      × ((j : Uuid)
          → text_eq id j ≡ false
          → rows_where (has_policy j) new.rules ≡ rows_where (has_policy j) old.rules)
      × ((j u : Uuid)
          → (text_eq id j && text_eq tenant u) ≡ false
          → find_row (is_policy j u) new.policies ≡ find_row (is_policy j u) old.policies)

  -- Where no two rules have one id: if PUT answers without an error, then the request names a
  -- tenant, a policy and a body, and the policy has been updated by the body: its row has the body's
  -- columns and the next version, its rules are the body's, in the body's order, with defaults for
  -- what they leave empty, and all other policies and the rules of all other policies are as before.
  pub update-IsUpdated :
      (a : Response)
      → IsKeyed s.store.tables.rules
      → after.1 ≡ ok a
      → (tenant id : Uuid) × (body : UpdatePolicyRequest) × (tenant_from_request codec req
          ≡ ok tenant)
        × (uuid_param codec (codes "id") req.id ≡ ok id)
        × (req.body ≡ some body)
        × IsUpdated id tenant body s.store.tables after.0.store.tables
  update-IsUpdated a keyed h = elim update-cases [
    | inl (x, p) ↦ let bad = rw p at h in cc
    | inr (tenant, id, body, p, q, r, same) ↦
        let (row, whole) =
          Outcome-ok a
            (save-Outcome db cascade process_tenant id tenant body (actor req.claims) s keyed)
            (ap (λ (x : Server × Result Response Response). x.1) (sym same) ∙ h) in
        let saved =
          (save db cascade process_tenant id tenant body (actor req.claims) s).0.store.tables in
        let old = s.store.tables in
        (
          tenant,
          id,
          body,
          p,
          q,
          r,
          subst
              (λ (x : Server × Result Response Response).
                IsUpdated id tenant body old x.0.store.tables)
              (sym same)
              (
                whole.old,
                row,
                whole.number,
                whole.there,
                own_policy db id tenant body old saved row whole,
                whole.updated,
                own_rules db id tenant body old saved row whole,
                other_rules db id tenant body old saved row whole,
                other_policies db id tenant body old saved row whole,
              ),
        )
  ]
