-- ===== src/Store/Policies.antt =====
-- cp/internal/store/gen/policies.sql.go: the statements on the table policies, with the constraints
-- of cp/migrations.
use qf.Common.{
  ℕ, Bool, ◌&&◌, Option, none, some, List, [], ◌∷◌, ◌++◌, Text, text_eq, Result, ok, err,
  if◌then◌else◌, ltb,
}
use qf.Common.Int.{ℤ, pos, inc, ltb_ℤ}
use qf.Common.Exec.{Exec}
use qf.Common.Tables.{find_row, rows_where, delete_where, update_where}
use qf.Common.Sort.{sort_by, then_by}
use qf.Policy.{Raw, Uuid}
use qf.Store.{
  Database, Tables, Store, StoreError, no_rows, refused, PolicyRecord, statement, is_there,
  has_next, one,
}
use qf.Store.Rules.{has_policy, drop_rules}

pub record PolicyParams : Type 0 where
  pub name : Text
  pub description : Text
  pub priority : ℤ
  pub selector : Raw

-- The WHERE clauses.
abbrev pub is_policy : Uuid → Uuid → PolicyRecord → Bool
is_policy id tenant_id p = text_eq p.policy.id id && text_eq p.tenant_id tenant_id

abbrev pub has_tenant : Uuid → PolicyRecord → Bool
has_tenant tenant_id p = text_eq p.tenant_id tenant_id

-- The ORDER BY clauses.
abbrev policy_priority : PolicyRecord → PolicyRecord → Bool
policy_priority a b = ltb_ℤ a.policy.priority b.policy.priority

abbrev policy_age : PolicyRecord → PolicyRecord → Bool
policy_age a b = ltb a.created_at b.created_at

-- What ListPolicies returns.
unfoldable pub policies_of : Uuid → Tables → List PolicyRecord
unfolding rows_where sort_by
policies_of tenant_id t =
    sort_by (then_by policy_priority policy_age) (rows_where (has_tenant tenant_id) t.policies)

-- ON DELETE CASCADE.
unfoldable pub drop_policy : Uuid → Tables → Option PolicyRecord → Tables
unfolding drop_rules delete_where
drop_policy id t none = t
drop_policy id t (some p) =
    drop_rules (has_policy id)
      (record t { policies = delete_where (λ p. text_eq p.policy.id id) t.policies })

module _ (db : Database) where
  abbrev pub new_policy : ℕ → Uuid → PolicyParams → PolicyRecord
  new_policy n tenant_id a = record {
    policy = record {
      id = db.new_id n;
      name = a.name;
      priority = a.priority;
      selector = db.jsonb a.selector;
    };
    tenant_id = tenant_id;
    description = a.description;
    current_version = pos 0;
    created_at = db.now n;
    updated_at = db.now n;
  }

  unfoldable pub create_policy : Uuid → PolicyParams → Exec Store StoreError PolicyRecord
  create_policy tenant_id a = statement db λ n t.
      if is_there (find_row (λ p. text_eq p.policy.id (db.new_id n)) t.policies)
      then err refused
      else ok (
        record t { policies = t.policies ++ new_policy n tenant_id a ∷ [] },
        new_policy n tenant_id a,
      )

  unfoldable pub get_policy : Uuid → Uuid → Exec Store StoreError PolicyRecord
  get_policy id tenant_id = statement db λ n t. one t (find_row (is_policy id tenant_id) t.policies)

  unfoldable pub list_policies : Uuid → Exec Store StoreError (List PolicyRecord)
  list_policies tenant_id = statement db λ n t. ok (t, policies_of tenant_id t)

  abbrev pub updated_policy : ℕ → PolicyParams → PolicyRecord → PolicyRecord
  updated_policy n a p = record p {
    policy = record {
      id = p.policy.id;
      name = a.name;
      priority = a.priority;
      selector = db.jsonb a.selector;
    };
    description = a.description;
    current_version = inc p.current_version;
    updated_at = db.now n;
  }

  abbrev pub set_policy :
      ℕ
      → Uuid
      → Uuid
      → PolicyParams
      → Tables
      → Option PolicyRecord
      → Result StoreError (Tables × PolicyRecord)
  set_policy n id tenant_id a t none = err no_rows
  set_policy n id tenant_id a t (some p) =
      if has_next p.current_version
      then ok (
        record t {
          policies = update_where (is_policy id tenant_id) (updated_policy n a) t.policies;
        },
        updated_policy n a p,
      )
      else err refused

  unfoldable pub update_policy : Uuid → Uuid → PolicyParams → Exec Store StoreError PolicyRecord
  update_policy id tenant_id a =
      statement db
        λ n t. set_policy n id tenant_id a t (find_row (is_policy id tenant_id) t.policies)

  unfoldable pub delete_policy : Uuid → Uuid → Exec Store StoreError (Unit {0})
  delete_policy id tenant_id =
      statement db λ n t. ok (drop_policy id t (find_row (is_policy id tenant_id) t.policies), tt)
