-- ===== src/Api/Groups/Defaults.antt =====
-- What the compiler reads after PUT /defaultpolicy.
use qf.Common.{
  ℕ, ◌≡◌, refl, ap, sym, ◌∙◌, Bool, true, Option, none, some, List, [], ◌∷◌, ◌++◌, text_eq,
  text_eq_iff, ok, err, Bool-cases, Option-cases, Result-cases, inl, inr, arith, if◌then◌else◌, ◌⊎◌,
  Text, codes, length, ◌==◌,
}
use mathlib.Core.List.{append-nil}
use qf.Common.Exec.{◌>>=◌, lift, pure}
use qf.Common.Tables.{find_row, update_where}
use qf.Common.Tables.Laws.{find_row-update_where, find_row-update_where_self}
use qf.Uuid.{pg_uuid_to_str}
use qf.Policy.{Uuid, DefaultPolicy, Codec}
use qf.Store.{Database, Tables, Store, DefaultPolicyRecord, refused}
use qf.Store.Laws.{statement-eq-ok}
use qf.Store.Reads.{queries_of, map_some}
use qf.Store.Groups.{
  has_tenant, with_actions, new_default, upsert, takes_action, takes_default, upsert_default_policy,
}
use qf.Api.{
  Request, Response, Server, default_policy_changed, tenant_from_request, decode_json, on_store,
  or_fail, start,
}
use qf.Api.Groups.{or_denied, put_default}

abbrev defaults : Uuid → Tables → Option DefaultPolicy
defaults u t =
    map_some (λ (d : DefaultPolicyRecord). d.policy) (find_row (has_tenant u) t.default_policies)

find_row-last :
    (u tenant : Uuid) (xs : List DefaultPolicyRecord) (y : DefaultPolicyRecord)
    → y.tenant_id ≡ tenant
    → find_row (has_tenant tenant) xs ≡ none
    → find_row (has_tenant u) (xs ++ y ∷ [])
      ≡ (if text_eq tenant u then some y else find_row (has_tenant u) xs)
unfolding find_row
find_row-last u tenant [] y e h = rw e refl
find_row-last u tenant (x ∷ xs) y e h = ground (
  arith,
  find_row-last u tenant xs y e,
  h,
  text_eq_iff x.tenant_id u,
  text_eq_iff x.tenant_id tenant,
  text_eq_iff tenant u,
)

module _ (db : Database) (tenant : Uuid) (a : DefaultPolicy) where
  upserted :
      (n : ℕ) (t : Tables) (o : Option DefaultPolicyRecord) (u : Uuid)
      → find_row (has_tenant tenant) t.default_policies ≡ o
      → defaults u (upsert db n tenant a t o).0
        ≡ (if text_eq tenant u then some a else defaults u t)
  upserted n t none u h = elim (Bool-cases (text_eq tenant u)) [
    | inl e ↦
        rw (find_row-last u tenant t.default_policies (new_default db n tenant a) refl h, e) refl
    | inr e ↦
        rw (find_row-last u tenant t.default_policies (new_default db n tenant a) refl h, e) refl
  ]
  upserted n t (some d) u h =
      let f = with_actions db a (db.now n) in
      elim (Bool-cases (text_eq tenant u)) [
        | inl e ↦
            let same = (text_eq_iff tenant u).0 e in
            let there : find_row (has_tenant u) t.default_policies ≡ some d =
              ap (λ v. find_row (has_tenant v) t.default_policies) (sym same) ∙ h in
            rw e (
              (λ i.
                map_some (λ (x : DefaultPolicyRecord). x.policy)
                  (find_row (has_tenant u)
                    (update_where (has_tenant (same i)) f t.default_policies)))
              ∙ rw
                  (find_row-update_where_self (has_tenant u) f t.default_policies d (λ x. refl)
                    there)
                  refl)
        | inr e ↦
            rw
              (
                e,
                find_row-update_where (has_tenant u) (has_tenant tenant) f t.default_policies
                    (λ x. refl)
                    (λ x k. ground (
                      arith,
                      e,
                      k,
                      text_eq_iff x.tenant_id u,
                      text_eq_iff x.tenant_id tenant,
                      text_eq_iff tenant u,
                    )),
              )
              refl
      ]

  upsert-defaults :
      (s t : Store) (d : DefaultPolicyRecord) (u : Uuid)
      → upsert_default_policy db tenant a s ≡ (t, ok d)
      → (defaults u t.tables ≡ (if text_eq tenant u then some a else defaults u s.tables))
        × (takes_default db a ≡ true)
  unfolding upsert_default_policy
  upsert-defaults s t d u h =
      let row = find_row (has_tenant tenant) s.tables.default_policies in
      let (v, p, q) =
        statement-eq-ok db
          (λ n v.
            if takes_default db a
            then ok (upsert db n tenant a v (find_row (has_tenant tenant) v.default_policies))
            else err refused)
          s t d h in
      elim (Bool-cases (takes_default db a)) [
        | inr e ↦ let bad = rw e at p in cc
        | inl e ↦
            let done = rw e at p in
            let tables : t.tables ≡ (upsert db s.statements tenant a s.tables row).0 =
              rw q (ground (arith, done)) in
            (ap (defaults u) tables ∙ upserted s.statements s.tables row u refl, e)
      ]

abbrev IsAction : Text → Type 0
IsAction s = (s ≡ codes "allow") ⊎ (s ≡ codes "deny")

-- What is saved of the actions that are asked for: deny for an empty one, the others as they are,
-- and all of them allow or deny.
pub record IsSaved (asked saved : DefaultPolicy) : Type 0 where
  pub ingress : saved.default_ingress_action ≡ (
      if length asked.default_ingress_action == 0
      then codes "deny"
      else asked.default_ingress_action)
  pub egress : saved.default_egress_action ≡ (
      if length asked.default_egress_action == 0 then codes "deny" else asked.default_egress_action)
  pub ingress_action : IsAction saved.default_ingress_action
  pub egress_action : IsAction saved.default_egress_action

takes_action-IsAction : (s : Text) → takes_action s ≡ true → IsAction s
unfolding takes_action
takes_action-IsAction s h = elim (Bool-cases (text_eq s (codes "allow"))) [
  | inl e ↦ inl ((text_eq_iff s (codes "allow")).0 e)
  | inr e ↦ inr ((text_eq_iff s (codes "deny")).0 (ground (arith, h, e)))
]

or_denied-IsSaved :
    (db : Database) (a : DefaultPolicy)
    → takes_default db (or_denied a) ≡ true
    → IsSaved a (or_denied a)
unfolding takes_default
or_denied-IsSaved db a h =
    let b = or_denied a in
    record {
      ingress = refl;
      egress = refl;
      ingress_action = takes_action-IsAction b.default_ingress_action (ground (arith, h));
      egress_action = takes_action-IsAction b.default_egress_action (ground (arith, h));
    }

-- If PUT /defaultpolicy answers without an error, the request names a tenant and a body, and from
-- then on the policy compiler reads as the tenant's default policy the body's two actions, with
-- deny for one that is empty; both are allow or deny; every other tenant's default policy is as
-- before; and where pushing is on, one recompilation of all of the tenant's hosts is queued.
pub defaults-put_default :
    (codec : Codec) (db : Database) (cascade : Bool) (req : Request DefaultPolicy) (s : Server)
    (r : Response)
    → (put_default codec db cascade req s).1 ≡ ok r
    → (tenant : Uuid) × (body saved : DefaultPolicy) × (tenant_from_request codec req ≡ ok tenant)
      × (req.body ≡ some body)
      × IsSaved body saved
      × ((u : Uuid)
          → (queries_of (put_default codec db cascade req s).0.store.tables).default_policy u ≡ (
              if text_eq tenant u
              then some saved
              else (queries_of s.store.tables).default_policy u))
      × ((put_default codec db cascade req s).0.pending
          ≡ s.pending
            ++ (if cascade then default_policy_changed (pg_uuid_to_str tenant) ∷ [] else []))
unfolding put_default ◌>>=◌ lift on_store or_fail start pure decode_json queries_of
defaults-put_default codec db cascade req s r h =
    elim (Result-cases (tenant_from_request codec req)) [
      | inr (e, p) ↦ let bad = rw p at h in cc
      | inl (tenant, p) ↦ elim (Option-cases req.body) [
        | inl q ↦ let bad = rw (p, q) at h in cc
        | inr (body, q) ↦
            let a = or_denied body in
            elim (Result-cases (upsert_default_policy db tenant a s.store).1) [
              | inr (e, k) ↦ let bad = rw (p, q, k) at h in cc
              | inl (d, k) ↦
                  let t = (upsert_default_policy db tenant a s.store).0 in
                  let facts =
                    λ (u : Uuid). upsert-defaults db tenant a s.store t d u (ground (arith, k)) in
                  let saved = or_denied-IsSaved db body (facts tenant).1 in
                  elim (Bool-cases cascade) [
                    | inl on ↦
                        rw (p, q, k, on)
                          (tenant, body, a, refl, refl, saved, λ u. (facts u).0, refl)
                    | inr off ↦
                        rw (p, q, k, off)
                          (
                            tenant,
                            body,
                            a,
                            refl,
                            refl,
                            saved,
                            λ u. (facts u).0,
                            sym (append-nil s.pending),
                          )
                  ]
            ]
      ]
    ]
