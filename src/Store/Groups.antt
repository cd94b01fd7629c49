-- ===== src/Store/Groups.antt =====
-- cp/internal/store/gen/objectgroups.sql.go and tenants.sql.go: the tables object_groups and
-- default_policies, with the constraints of cp/migrations.
use qf.Common.{
  ℕ, Bool, not, ◌&&◌, ◌||◌, Option, none, some, List, [], ◌∷◌, ◌++◌, Text, text_eq, text_lt, codes,
  Result, ok, err, if◌then◌else◌,
}
use qf.Common.Exec.{Exec}
use qf.Common.Tables.{find_row, rows_where, delete_where, update_where}
use qf.Common.Sort.{sort_by}
use qf.Policy.{Raw, Uuid, DefaultPolicy}
use qf.Store.{
  Database, Tables, Store, StoreError, refused, no_rows, GroupRecord, DefaultPolicyRecord,
  RuleObjectgroupRef, statement, is_there, one,
}

abbrev pub is_group : Uuid → Uuid → GroupRecord → Bool
is_group id tenant_id g = text_eq g.group.id id && text_eq g.tenant_id tenant_id

abbrev is_named : Uuid → Text → GroupRecord → Bool
is_named tenant_id name g = text_eq g.tenant_id tenant_id && text_eq g.name name

abbrev by_name : GroupRecord → GroupRecord → Bool
by_name a b = text_lt a.name b.name

-- The CHECK constraints.
unfoldable pub takes_type : Text → Bool
takes_type s =
    text_eq s (codes "ipset") || (text_eq s (codes "portset") || text_eq s (codes "hostset"))

unfoldable pub takes_action : Text → Bool
takes_action s = text_eq s (codes "allow") || text_eq s (codes "deny")

abbrev pub has_tenant : Uuid → DefaultPolicyRecord → Bool
has_tenant tenant_id d = text_eq d.tenant_id tenant_id

module _ (db : Database) where
  abbrev new_group : ℕ → Uuid → Text → Text → Raw → GroupRecord
  new_group n tenant_id type name spec = record {
    group = record { id = db.new_id n; type = type; spec = db.jsonb spec };
    tenant_id = tenant_id;
    name = name;
    resolved_cidrs = none;
    resolved_at = none;
    created_at = db.now n;
    updated_at = db.now n;
  }

  unfoldable pub create_object_group : Uuid → Text → Text → Raw → Exec Store StoreError GroupRecord
  create_object_group tenant_id type name spec = statement db λ n t.
      if takes_type type
        && (not (is_there (find_row (is_named tenant_id name) t.object_groups))
            && not (is_there (find_row (λ g. text_eq g.group.id (db.new_id n)) t.object_groups)))
      then ok (
        record t { object_groups = t.object_groups ++ new_group n tenant_id type name spec ∷ [] },
        new_group n tenant_id type name spec,
      )
      else err refused

  unfoldable pub get_object_group : Uuid → Uuid → Exec Store StoreError GroupRecord
  get_object_group id tenant_id =
      statement db λ n t. one t (find_row (is_group id tenant_id) t.object_groups)

  unfoldable pub get_object_group_by_name : Uuid → Text → Exec Store StoreError GroupRecord
  get_object_group_by_name tenant_id name =
      statement db λ n t. one t (find_row (is_named tenant_id name) t.object_groups)

  unfoldable pub list_object_groups : Uuid → Exec Store StoreError (List GroupRecord)
  list_object_groups tenant_id = statement db λ n t.
      ok (t, sort_by by_name (rows_where (λ g. text_eq g.tenant_id tenant_id) t.object_groups))

  unfoldable pub list_object_groups_by_type : Uuid → Text → Exec Store StoreError (List GroupRecord)
  list_object_groups_by_type tenant_id type = statement db λ n t. ok (
    t,
    sort_by by_name (
        rows_where (λ g. text_eq g.tenant_id tenant_id && text_eq g.group.type type)
          t.object_groups),
  )

  abbrev with_spec : Raw → ℕ → GroupRecord → GroupRecord
  with_spec spec now g = record g {
    group = record { id = g.group.id; type = g.group.type; spec = db.jsonb spec };
    resolved_cidrs = none;
    resolved_at = none;
    updated_at = now;
  }

  abbrev respecify :
      ℕ → Uuid → Uuid → Raw → Tables → Option GroupRecord → Result StoreError (Tables × GroupRecord)
  respecify n id tenant_id spec t none = err no_rows
  respecify n id tenant_id spec t (some g) = ok (
    record t {
      object_groups =
          update_where (is_group id tenant_id) (with_spec spec (db.now n)) t.object_groups;
    },
    with_spec spec (db.now n) g,
  )

  unfoldable pub update_object_group : Uuid → Uuid → Raw → Exec Store StoreError GroupRecord
  update_object_group id tenant_id spec =
      statement db
        λ n t. respecify n id tenant_id spec t (find_row (is_group id tenant_id) t.object_groups)

  abbrev with_cidrs : Raw → ℕ → GroupRecord → GroupRecord
  with_cidrs cidrs now g = record g {
    resolved_cidrs = some (db.jsonb cidrs);
    resolved_at = some now;
    updated_at = now;
  }

  unfoldable pub update_object_group_resolved : Uuid → Uuid → Raw → Exec Store StoreError (Unit {0})
  update_object_group_resolved id tenant_id cidrs = statement db λ n t. ok (
    record t {
      object_groups =
          update_where (is_group id tenant_id) (with_cidrs cidrs (db.now n)) t.object_groups;
    },
    tt,
  )

  -- ON DELETE RESTRICT.
  unfoldable pub delete_object_group : Uuid → Uuid → Exec Store StoreError (Unit {0})
  delete_object_group id tenant_id = statement db λ n t.
      if is_there (find_row (is_group id tenant_id) t.object_groups)
        && is_there (find_row (λ (f : RuleObjectgroupRef). text_eq f.object_group_id id) t.refs)
      then err refused
      else ok
          (record t { object_groups = delete_where (is_group id tenant_id) t.object_groups }, tt)

  unfoldable pub get_default_policy : Uuid → Exec Store StoreError DefaultPolicyRecord
  get_default_policy tenant_id =
      statement db λ n t. one t (find_row (has_tenant tenant_id) t.default_policies)

  abbrev pub with_actions : DefaultPolicy → ℕ → DefaultPolicyRecord → DefaultPolicyRecord
  with_actions a now d = record d { policy = a; updated_at = now }

  abbrev pub new_default : ℕ → Uuid → DefaultPolicy → DefaultPolicyRecord
  new_default n tenant_id a = record {
    policy = a;
    id = db.new_id n;
    tenant_id = tenant_id;
    updated_at = db.now n;
  }

  -- ON CONFLICT (tenant_id) DO UPDATE.
  abbrev pub upsert :
      ℕ → Uuid → DefaultPolicy → Tables → Option DefaultPolicyRecord → Tables × DefaultPolicyRecord
  upsert n tenant_id a t none = (
    record t { default_policies = t.default_policies ++ new_default n tenant_id a ∷ [] },
    new_default n tenant_id a,
  )
  upsert n tenant_id a t (some d) = (
    record t {
      default_policies =
          update_where (has_tenant tenant_id) (with_actions a (db.now n)) t.default_policies;
    },
    with_actions a (db.now n) d,
  )

  abbrev pub takes_default : DefaultPolicy → Bool
  takes_default a = takes_action a.default_ingress_action && takes_action a.default_egress_action

  unfoldable pub upsert_default_policy :
      Uuid → DefaultPolicy → Exec Store StoreError DefaultPolicyRecord
  upsert_default_policy tenant_id a = statement db λ n t.
      if takes_default a
      then ok (upsert n tenant_id a t (find_row (has_tenant tenant_id) t.default_policies))
      else err refused
