-- ===== src/Api/Tasks.antt =====
-- The goroutines that the handlers of /policies have started, run one after the other at any time.
use qf.Common.{
  ℕ, ◌≡◌, refl, Bool, true, Option, none, some, List, [], ◌∷◌, ◌++◌, Text, codes, Result, ok,
  Result-cases, inl, inr, arith, text_eq,
}
use qf.Common.Exec.{◌>>=◌, lift, pure}
use qf.Common.Tables.{find_row, delete_where}
use qf.Uuid.{pg_uuid_to_str}
use qf.Policy.{Uuid, Raw, Codec}
use qf.Policy.Cascade.{
  Propagation, hosts_of_policy, on_policy_changed, on_policy_changed_with_old_selector,
  on_host_labels_changed, on_object_group_changed, on_default_policy_changed,
}
use qf.Server.Registry.{disconnect}
use qf.Store.{Database, Tables, Store, PolicyRecord}
use qf.Store.Policies.{is_policy, drop_policy, delete_policy}
use qf.Store.Rules.{drop_rules}
use qf.Store.Reads.{queries_of}
use qf.Store.Laws.{statement-eq-ok}
use qf.Store.Versions.{insert_config_version}
use qf.Api.{
  Request, Response, Server, Task, policy_changed, policy_changed_with_old_selector, save_version,
  host_labels_changed, object_group_changed, default_policy_changed, disconnect_host,
  tenant_from_request, uuid_param, on_store, or_fail, start,
}
use qf.Api.Policies.{delete}
use qf.Api.Versions.{Formats, snapshot_of}

module _ (codec : Codec) (db : Database) (f : Formats) (dispatcher : Bool)
    (send_ok : Text → Bool) where
  -- A snapshot that does not encode is not saved, and an error is ignored.
  abbrev save_content : Uuid → Uuid → Text → Option Raw → Store → Store
  save_content tenant id email none s = s
  save_content tenant id email (some content) s =
      (insert_config_version db tenant (codes "policy") id content email s).0

  -- A cascade reads the tables as they are when it runs.
  unfoldable pub run_task : Task → Store × Propagation → Store × Propagation
  run_task (policy_changed tenant id) (s, st) =
      (s, (on_policy_changed codec (queries_of s.tables) dispatcher send_ok tenant id st).0)
  run_task (policy_changed_with_old_selector tenant id old) (s, st) = (
    s,
    (on_policy_changed_with_old_selector codec (queries_of s.tables) dispatcher send_ok tenant id
        old st).0,
  )
  run_task (host_labels_changed tenant id) (s, st) =
      (s, (on_host_labels_changed codec (queries_of s.tables) dispatcher send_ok tenant id st).0)
  run_task (object_group_changed tenant id) (s, st) =
      (s, (on_object_group_changed codec (queries_of s.tables) dispatcher send_ok tenant id st).0)
  run_task (default_policy_changed tenant) (s, st) =
      (s, (on_default_policy_changed codec (queries_of s.tables) dispatcher send_ok tenant st).0)
  run_task (disconnect_host id reason after) (s, st) = (
    s,
    record st {
      streams = disconnect id (record { reason = reason; reconnect_after_ms = after }) st.streams;
    },
  )
  run_task (save_version tenant id p rules email) (s, st) =
      (save_content tenant id email (f.encode (snapshot_of p rules)) s, st)

  -- A cascade for a policy that is not there reaches no stream.
  missing-keeps :
      (tenant_id policy_id : Text) (tenant id : Uuid) (s : Store) (st : Propagation)
      → codec.scan_uuid tenant_id ≡ some tenant
      → codec.scan_uuid policy_id ≡ some id
      → find_row (is_policy id tenant) s.tables.policies ≡ none
      → run_task (policy_changed tenant_id policy_id) (s, st) ≡ (s, st)
  unfolding run_task on_policy_changed hosts_of_policy queries_of
  missing-keeps tenant_id policy_id tenant id s st p q r = rw (p, q, r) refl

removed :
    (id tenant : Uuid) (ps : List PolicyRecord)
    → find_row
        (is_policy id tenant)
        (delete_where (λ (p : PolicyRecord). text_eq p.policy.id id) ps)
      ≡ none
unfolding find_row delete_where
removed id tenant [] = refl
removed id tenant (p ∷ ps) = ground (arith, removed id tenant ps)

gone :
    (id tenant : Uuid) (t : Tables) (o : Option PolicyRecord)
    → find_row (is_policy id tenant) t.policies ≡ o
    → find_row (is_policy id tenant) (drop_policy id t o).policies ≡ none
unfolding drop_policy drop_rules
gone id tenant t none h = h
gone id tenant t (some p) h = removed id tenant t.policies

delete_policy-gone :
    (db : Database) (id tenant : Uuid) (s t : Store)
    → delete_policy db id tenant s ≡ (t, ok tt)
    → find_row (is_policy id tenant) t.tables.policies ≡ none
unfolding delete_policy
delete_policy-gone db id tenant s t h =
    let drop =
      λ (n : ℕ) (u : Tables). drop_policy id u (find_row (is_policy id tenant) u.policies) in
    let (u, p, q) = statement-eq-ok db (λ n u. ok (drop n u, tt)) s t tt h in
    let tables : t.tables ≡ drop 0 s.tables = rw q (ground (arith, p)) in
    rw tables (gone id tenant s.tables _ refl)

module _ (codec : Codec) (db : Database) (f : Formats) (dispatcher : Bool) (send_ok : Text → Bool)
    (tenant : Uuid) (req : Request (Unit {0})) (s : Server) where
  abbrev after_delete : Server × Result Response Response
  after_delete = delete codec db true tenant req s

  -- Where the tenant and the id of the path are read back as they are printed and the request is
  -- for the tenant of the process: if DELETE answers without an error, the policy of the path is gone and one cascade for
  -- it is queued, and when that cascade runs, at any later time while the policy is still gone, it
  -- finds no policy: no stream is sent anything and no host's desired generation is incremented.
  pub run_task-delete :
      (r : Response)
      → tenant_from_request codec req ≡ ok tenant
      → codec.scan_uuid (pg_uuid_to_str tenant) ≡ some tenant
      → ((u : Uuid)
          → uuid_param codec (codes "id") req.id ≡ ok u
          → codec.scan_uuid (pg_uuid_to_str u) ≡ some u)
      → after_delete.1 ≡ ok r
      → (id : Uuid) × (uuid_param codec (codes "id") req.id ≡ ok id)
        × (find_row (is_policy id tenant) after_delete.0.store.tables.policies ≡ none)
        × (after_delete.0.pending
            ≡ s.pending ++ policy_changed (pg_uuid_to_str tenant) (pg_uuid_to_str id) ∷ [])
        × ((t : Store) (st : Propagation)
            → find_row (is_policy id tenant) t.tables.policies ≡ none
            → run_task codec db f dispatcher send_ok
                (policy_changed (pg_uuid_to_str tenant) (pg_uuid_to_str id))
                (t, st)
              ≡ (t, st))
  unfolding delete ◌>>=◌ lift on_store or_fail start pure
  run_task-delete r own prints reads h =
      elim (Result-cases (uuid_param codec (codes "id") req.id)) [
        | inr (e, p) ↦ let bad = rw (own, p) at h in cc
        | inl (id, p) ↦ elim (Result-cases (delete_policy db id tenant s.store).1) [
          | inr (e, q) ↦ let bad = rw (own, p, q) at h in cc
          | inl (x, q) ↦
              let t = (delete_policy db id tenant s.store).0 in
              let none' = delete_policy-gone db id tenant s.store t (ground (arith, q)) in
              rw (own, p, q)
                (
                  id,
                  refl,
                  none',
                  refl,
                  λ u st.
                      missing-keeps codec db f dispatcher send_ok (pg_uuid_to_str tenant)
                        (pg_uuid_to_str id) tenant id u st prints (reads id p),
                )
        ]
      ]
