-- ===== src/Store/Versions.antt =====
-- cp/internal/store/gen/versions.sql.go: the table config_versions.
pub mod Numbers
use qf.Common.{
  ℕ, ◌+◌, Bool, true, false, not, ◌&&◌, ◌||◌, Option, none, some, List, [], ◌∷◌, ◌++◌, Text,
  text_eq, map, codes, Result, ok, err, if◌then◌else◌, ltb,
}
use qf.Common.Int.{ℤ, pos, inc, ltb_ℤ, eqb_ℤ}
use qf.Common.Exec.{Exec}
use qf.Common.Tables.{find_row, rows_where, delete_where, update_where}
use qf.Common.Sort.{sort_by, then_by}
use qf.Policy.{Raw, Uuid, PolicyRow, Rule}
use qf.Store.{
  Database, Tables, Store, StoreError, no_rows, refused, PolicyRecord, RuleRecord, ConfigVersion,
  RuleObjectgroupRef, statement, is_there, has_next, one,
}

abbrev pub is_version_of : Uuid → Text → Uuid → ConfigVersion → Bool
is_version_of tenant_id kind id v =
    text_eq v.tenant_id tenant_id && (text_eq v.entity_type kind && text_eq v.entity_id id)

abbrev pub is_version : Uuid → Text → Uuid → ℤ → ConfigVersion → Bool
is_version tenant_id kind id n v = is_version_of tenant_id kind id v && eqb_ℤ v.version n

-- The ORDER BY clause, and the CHECK constraint.
abbrev latest_first : ConfigVersion → ConfigVersion → Bool
latest_first a b = ltb_ℤ b.version a.version

abbrev takes_kind : Text → Bool
takes_kind s =
    text_eq s (codes "policy")
    || (text_eq s (codes "objectgroup") || text_eq s (codes "defaultpolicy"))

-- COALESCE(MAX(version), 0).
abbrev pub max_ℤ : ℤ → Option ℤ → ℤ
max_ℤ a none = a
max_ℤ a (some b) = if ltb_ℤ a b then b else a

unfoldable pub max_version : (ConfigVersion → Bool) → List ConfigVersion → Option ℤ
max_version test [] = none
max_version test (v ∷ vs) =
    let rest = max_version test vs in if test v then some (max_ℤ v.version rest) else rest

abbrev pub or_zero : Option ℤ → ℤ
or_zero none = pos 0
or_zero (some n) = n

unfoldable pub takes_version : Uuid → Text → Uuid → Tables → Bool
takes_version tenant_id kind id t =
    takes_kind kind && has_next (or_zero (max_version (is_version_of tenant_id kind id) t.versions))

module _ (db : Database) where
  -- The row that INSERT makes.
  abbrev pub new_version : ℕ → Uuid → Text → Uuid → Raw → Text → Tables → ConfigVersion
  new_version n tenant_id kind id content created_by t = record {
    id = db.new_id n;
    tenant_id = tenant_id;
    entity_type = kind;
    entity_id = id;
    version = inc (or_zero (max_version (is_version_of tenant_id kind id) t.versions));
    content = db.jsonb content;
    created_by = created_by;
    created_at = db.now n;
  }

  unfoldable pub insert_config_version :
      Uuid → Text → Uuid → Raw → Text → Exec Store StoreError (Unit {0})
  insert_config_version tenant_id kind id content created_by = statement db λ n t.
      if takes_version tenant_id kind id t
      then ok (
        record t {
          versions = t.versions ++ new_version n tenant_id kind id content created_by t ∷ [];
        },
        tt,
      )
      else err refused

  unfoldable pub get_config_version : Uuid → Text → Uuid → ℤ → Exec Store StoreError ConfigVersion
  get_config_version tenant_id kind id version =
      statement db λ n t. one t (find_row (is_version tenant_id kind id version) t.versions)

  unfoldable pub list_config_versions :
      Uuid → Text → Uuid → Exec Store StoreError (List ConfigVersion)
  list_config_versions tenant_id kind id =
      statement db λ n t.
        ok (t, sort_by latest_first (rows_where (is_version_of tenant_id kind id) t.versions))
