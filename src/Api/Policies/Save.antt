-- ===== src/Api/Policies/Save.antt =====
-- How the second part of PUT /policies/{id} ends.
use qf.Common.{
  ◌≡◌, refl, ap, sym, ◌∙◌, Bool, true, List, [], ◌∷◌, ◌++◌, map, Text, codes, Result, ok, err,
  Bool-cases, Result-cases, inl, inr, arith, if◌then◌else◌,
}
use mathlib.Core.Path.{subst}
use qf.Common.Exec.{◌>>=◌, pure}
use qf.Common.Tables.{find_row}
use qf.Uuid.{pg_uuid_to_str}
use qf.Policy.{Raw, Uuid}
use qf.Store.{Database, Tables, Store, PolicyRecord, RuleRecord, transaction, one}
use qf.Store.Laws.{
  one-Same, statement-keeps, transaction-ok, transaction-err, begun, value, or_value-eq,
}
use qf.Store.Rules.{list_rules_by_policy, rules_of}
use qf.Store.Rules.Keys.{IsKeyed}
use qf.Store.Policies.{get_policy, is_policy}
use qf.Api.{
  Response, Server, Task, save_version, policy_changed_with_old_selector, policy_detail, write_json,
  api_error, on_store, start, set_audit_before,
}
use qf.Api.Policies.{
  UpdatePolicyRequest, note_before, capture, replace_policy, save, to_policy_response,
  to_rule_response,
}
use qf.Api.Policies.Replace.{Replaced, replace_policy-Replaced}

-- No row has changed, and no goroutine has been started.
abbrev pub IsKept : Server → Server → Type 0
IsKept s t = (t.store.tables ≡ s.store.tables) × (t.pending ≡ s.pending)

abbrev begin_failed : Response
begin_failed = api_error 500 (codes "begin tx")

abbrev commit_failed : Response
commit_failed = api_error 500 (codes "commit tx")

-- The snapshot is queued, and where pushing is on, the cascade.
abbrev pub queued : Bool → Task → Task → List Task → List Task
queued cascade x c ts = if cascade then (ts ++ x ∷ []) ++ c ∷ [] else ts ++ x ∷ []

module _ (db : Database) (id tenant : Uuid) where
  get_policy-keeps : (s : Store) → (get_policy db id tenant s).0.tables ≡ s.tables
  unfolding get_policy
  get_policy-keeps s =
      statement-keeps db (λ n t. one t (find_row (is_policy id tenant) t.policies)) s
        (one-Same s.tables _)

  list_rules-keeps : (s : Store) → (list_rules_by_policy db id s).0.tables ≡ s.tables
  unfolding list_rules_by_policy
  list_rules-keeps s = statement-keeps db (λ n t. ok (t, rules_of id t)) s refl

  note_before-IsKept : (s : Server) → IsKept s (note_before db id tenant s).0
  unfolding note_before ◌>>=◌ on_store set_audit_before pure
  note_before-IsKept s =
      let first = (get_policy db id tenant s.store).0 in
      let read = get_policy-keeps s.store in
      elim (Result-cases (get_policy db id tenant s.store).1) [
        | inr (e, p) ↦ rw p (read, refl)
        | inl (r, p) ↦
            rw (p, or_value-eq [] (list_rules_by_policy db id) first)
              (list_rules-keeps first ∙ read, refl)
      ]

  capture-eq :
      (s : Server)
      → capture db id tenant s
        ≡ ((note_before db id tenant s).0, ok (value [] (note_before db id tenant s).1))
  unfolding capture
  capture-eq s = or_value-eq [] (note_before db id tenant) s

  -- How a save ends: it answers an error and has changed nothing, or it has replaced the policy.
  pub data Outcome (body : UpdatePolicyRequest) (email : Text) (cascade : Bool)
      (process_tenant : Uuid) (s t : Server) (r : Result Response Response) : Type 0 where
    unchanged :
        (e : Response) → r ≡ err e → IsKept s t → Outcome body email cascade process_tenant s t r
    replaced :
        (p : PolicyRecord) (old : Raw) (saved : List RuleRecord)
        → Replaced db id tenant body s.store.tables t.store.tables p
        → r
          ≡ ok (write_json 200 (policy_detail (to_policy_response p) (map to_rule_response saved)))
        → t.pending
          ≡ queued cascade
              (save_version tenant id p saved email)
              (policy_changed_with_old_selector
                (pg_uuid_to_str process_tenant)
                (pg_uuid_to_str id)
                old)
              s.pending
        → Outcome body email cascade process_tenant s t r

module _ (db : Database) (cascade : Bool) (process_tenant id tenant : Uuid)
    (body : UpdatePolicyRequest) (email : Text) (s : Server) where
  abbrev noted : Server
  noted = (note_before db id tenant s).0

  abbrev attempt : Store × Result Response PolicyRecord
  attempt = transaction db begin_failed commit_failed (replace_policy db id tenant body) noted.store

  abbrev started : Store
  started = begun db begin_failed commit_failed (replace_policy db id tenant body) noted.store

  abbrev old_selector : Raw
  old_selector = value [] (note_before db id tenant s).1

  abbrev saved_rules : List RuleRecord
  saved_rules = value [] (list_rules_by_policy db id attempt.0).1

  pub save-Outcome :
      IsKeyed s.store.tables.rules
      → Outcome db id tenant body email cascade process_tenant s
          (save db cascade process_tenant id tenant body email s).0
          (save db cascade process_tenant id tenant body email s).1
  unfolding save ◌>>=◌ on_store start pure
  save-Outcome keyed =
      let kept = note_before-IsKept db id tenant s in
      elim (Result-cases attempt.1) [
        | inr (e, p) ↦
            rw (capture-eq db id tenant s, p)
              (unchanged e refl (
                transaction-err db begin_failed commit_failed (replace_policy db id tenant body)
                      noted.store e p
                    ∙ kept.0,
                kept.1,
              ))
        | inl (a, p) ↦
            let (block, live, same) =
              transaction-ok db begin_failed commit_failed (replace_policy db id tenant body)
                noted.store a p in
            let last = (replace_policy db id tenant body started).0 in
            let final = list_rules-keeps db id tenant attempt.0 ∙ same in
            let whole =
              replace_policy-Replaced db id tenant body started last a
                (subst (λ (x : Tables). IsKeyed x.rules) (sym kept.0) keyed) refl
                (ground (arith, block)) live in
            let moved =
              subst (λ (x : Tables). Replaced db id tenant body s.store.tables x a) (sym final)
                (subst (λ (x : Tables). Replaced db id tenant body x last.tables a) kept.0 whole) in
            let read = or_value-eq {F = Response} [] (list_rules_by_policy db id) attempt.0 in
            elim (Bool-cases cascade) [
              | inl on ↦
                  rw (capture-eq db id tenant s, p, read, on)
                    (replaced a old_selector saved_rules moved refl (
                      ap
                        (queued true (save_version tenant id a saved_rules email) (
                          policy_changed_with_old_selector (pg_uuid_to_str process_tenant)
                            (pg_uuid_to_str id) old_selector))
                        kept.1))
              | inr off ↦
                  rw (capture-eq db id tenant s, p, read, off)
                    (replaced a old_selector saved_rules moved refl
                      (ap (λ ts. ts ++ save_version tenant id a saved_rules email ∷ []) kept.1))
            ]
      ]
