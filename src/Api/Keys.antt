-- ===== src/Api/Keys.antt =====
-- Every handler of /policies keeps the keys of the tables.
use qf.Common.{Bool, List, [], ◌∷◌, Text, Result-cases, inl, inr}
use qf.Common.Exec.{Exec}
use qf.Policy.{Raw, Uuid, Codec}
use qf.Policy.DryRun.{DryRunRuleSpec}
use qf.Store.{Database, Tables, Store, StoreError, RuleRecord, RuleObjectgroupRef}
use qf.Store.Rules.{RuleParams}
use qf.Store.Policies.{PolicyParams}
use qf.Store.Keeps.{Keeps, tables_of, keeps_rules, Keeps-bind, Keeps-or_value, Keeps-pure}
use qf.Store.WellFormed.{IsWellFormed}
use qf.Store.WellFormed.Statements.{
  Keeps-create_policy, Keeps-get_policy, Keeps-list_policies, Keeps-update_policy,
  Keeps-delete_policy, Keeps-get_rule, Keeps-list_rules, Keeps-create_rule, Keeps-update_rule,
  Keeps-delete_rule, Keeps-insert_config_version, Keeps-get_config_version,
  Keeps-list_config_versions,
}
use qf.Api.{Request, Response, Server, Task, Body, on_store, or_fail, start, set_audit_before}
use qf.Api.Policies.{
  UpdatePolicyRequest, rule_params, list, create, get, delete_rules, create_rules, replace_rules,
  replace_policy, note_before, capture, save, update, delete,
}
use qf.Api.Rules
use qf.Api.Rules.{
  resolve_policy, resolve_rule, check_rule, list_rules, get_one, create_one, update_one, delete_one,
}
use qf.Api.Versions.{
  Formats, Snapshot, snapshot_rule_params, delete_all, create_all, dry_run, preview, list_versions,
  restore, revert_version,
}
use qf.Api.Routes.{
  Call, call_list, call_get, call_delete, call_list_rules, call_get_rule, call_delete_rule,
  call_list_versions, call_revert, call_create, call_update, call_create_rule, call_update_rule,
  call_preview, handle, serve,
}

-- The tables behind the handlers.
unfoldable pub server_tables : Server → Tables
server_tables s = s.store.tables

module _ {R : Tables → Type 0} where
  pub Keeps-on_store :
      {E A : Type 0} (m : Exec Store E A) → Keeps tables_of R m → Keeps server_tables R (on_store m)
  unfolding server_tables tables_of on_store
  Keeps-on_store m k = record { at = λ s h. k.at s.store h }

  pub Keeps-start : (t : Task) → Keeps server_tables R (start t)
  unfolding server_tables start
  Keeps-start t = record { at = λ s h. h }

  pub Keeps-set_audit_before :
      {E : Type 0} (b : Body) → Keeps server_tables R (set_audit_before {E = E} b)
  unfolding server_tables set_audit_before
  Keeps-set_audit_before b = record { at = λ s h. h }

  pub Keeps-or_fail :
      {S A : Type 0} {view : S → Tables} (e : Response) (m : Exec S StoreError A)
      → Keeps view R m
      → Keeps view R (or_fail e m)
  unfolding or_fail
  Keeps-or_fail e m k = record {
    at = λ s h. elim (Result-cases (m s).1) [
      | inl (a, p) ↦ rw (or_fail, p) (k.at s h)
      | inr (x, p) ↦ rw (or_fail, p) (k.at s h)
    ];
  }

ruleset key_rules = (
  keeps_rules, Keeps-on_store, Keeps-start, Keeps-set_audit_before, Keeps-or_fail,
  Keeps-create_policy, Keeps-get_policy, Keeps-list_policies, Keeps-update_policy,
  Keeps-delete_policy, Keeps-get_rule, Keeps-list_rules, Keeps-create_rule, Keeps-update_rule,
  Keeps-delete_rule, Keeps-insert_config_version, Keeps-get_config_version,
  Keeps-list_config_versions,
)

module _ {P : RuleObjectgroupRef → Type 0} where
  module _ (codec : Codec) (db : Database) where
    Keeps-create :
        (req : Request PolicyParams) → Keeps server_tables (IsWellFormed P) (create codec db req)
    unfolding create
    Keeps-create req = search key_rules depth 14

    Keeps-delete_rules :
        (es : List RuleRecord) → Keeps tables_of (IsWellFormed P) (delete_rules db es)
    unfolding delete_rules
    Keeps-delete_rules [] = search key_rules depth 14
    Keeps-delete_rules (e ∷ es) =
        Keeps-bind _ _ (Keeps-or_fail _ _ (Keeps-delete_rule db e.rule.id))
          λ _. Keeps-delete_rules es

    Keeps-create_rules :
        (id : Uuid) (as' : List RuleParams)
        → Keeps tables_of (IsWellFormed P) (create_rules db id as')
    unfolding create_rules
    Keeps-create_rules id [] = search key_rules depth 14
    Keeps-create_rules id (a ∷ as') =
        Keeps-bind _ _ (Keeps-or_fail _ _ (Keeps-create_rule db id (rule_params a)))
          λ _. Keeps-create_rules id as'

    Keeps-replace_policy :
        (id tenant : Uuid) (body : UpdatePolicyRequest)
        → Keeps tables_of (IsWellFormed P) (replace_policy db id tenant body)
    unfolding replace_policy replace_rules
    Keeps-replace_policy id tenant body =
        search (key_rules, Keeps-delete_rules, Keeps-create_rules) depth 14

    Keeps-save :
        (cascade : Bool) (process_tenant id tenant : Uuid) (body : UpdatePolicyRequest)
        (email : Text)
        → Keeps server_tables (IsWellFormed P) (save db cascade process_tenant id tenant body email)
    unfolding save capture note_before
    Keeps-save cascade process_tenant id tenant body email =
        search (key_rules, Keeps-replace_policy) depth 20

    -- The loops of the return to a version.
    Keeps-delete_all : (es : List RuleRecord) → Keeps tables_of (IsWellFormed P) (delete_all db es)
    unfolding delete_all
    Keeps-delete_all [] = search key_rules depth 14
    Keeps-delete_all (e ∷ es) =
        Keeps-bind _ _ (Keeps-or_value _ _ (Keeps-delete_rule db e.rule.id))
          λ _. Keeps-delete_all es

    Keeps-create_all :
        (id : Uuid) (as' : List RuleParams)
        → Keeps tables_of (IsWellFormed P) (create_all db id as')
    unfolding create_all
    Keeps-create_all id [] = search key_rules depth 14
    Keeps-create_all id (a ∷ as') =
        Keeps-bind _ _
          (Keeps-or_value _ _
            (Keeps-bind _ _ (Keeps-create_rule db id (snapshot_rule_params a)) λ _. Keeps-pure tt))
          λ _. Keeps-create_all id as'

    Keeps-restore :
        (id tenant : Uuid) (content : Raw) (snapshot : Snapshot) (email : Text) (f : Formats)
        → Keeps tables_of (IsWellFormed P) (restore codec db f id tenant content snapshot email)
    unfolding restore
    Keeps-restore id tenant content snapshot email f =
        search (key_rules, Keeps-delete_all, Keeps-create_all) depth 20

    Keeps-resolve_policy :
        {B : Type 0} (req : Request B)
        → Keeps server_tables (IsWellFormed P) (resolve_policy codec db req)
    unfolding resolve_policy
    Keeps-resolve_policy req = search key_rules depth 14

    Keeps-resolve_rule :
        {B : Type 0} (id : Uuid) (req : Request B)
        → Keeps server_tables (IsWellFormed P) (Rules.resolve_rule codec db id req)
    unfolding resolve_rule
    Keeps-resolve_rule id req = search key_rules depth 14

    Keeps-check_rule : (a : RuleParams) → Keeps server_tables (IsWellFormed P) (check_rule a)
    unfolding check_rule
    Keeps-check_rule a = search key_rules depth 14

    Keeps-dry_run :
        (f : Formats) (tenant id : Uuid) (specs : List DryRunRuleSpec)
        → Keeps server_tables (IsWellFormed P) (dry_run codec db f tenant id specs)
    unfolding dry_run server_tables
    Keeps-dry_run f tenant id specs = record { at = λ s h. h }

  module _ (codec : Codec) (db : Database) (f : Formats) (cascade : Bool)
      (process_tenant : Uuid) where
    Keeps-handle :
        (c : Call)
        → Keeps server_tables (IsWellFormed P) (handle codec db f cascade process_tenant c)
    unfolding handle list get delete list_rules get_one delete_one list_versions revert_version
        update create_one update_one preview
    Keeps-handle (call_list req) = search key_rules depth 14
    Keeps-handle (call_get req) = search key_rules depth 14
    Keeps-handle (call_delete req) = search key_rules depth 14
    Keeps-handle (call_list_rules req) = search (key_rules, Keeps-resolve_policy) depth 14
    Keeps-handle (call_get_rule req) =
        search (key_rules, Keeps-resolve_policy, Keeps-resolve_rule) depth 14
    Keeps-handle (call_delete_rule req) =
        search (key_rules, Keeps-resolve_policy, Keeps-resolve_rule) depth 14
    Keeps-handle (call_list_versions req) = search key_rules depth 14
    Keeps-handle (call_revert req) = search (key_rules, Keeps-restore) depth 16
    Keeps-handle (call_create req) = Keeps-create codec db req
    Keeps-handle (call_update req) = search (key_rules, Keeps-save) depth 14
    Keeps-handle (call_create_rule req) =
        search (key_rules, Keeps-resolve_policy, Keeps-check_rule) depth 16
    Keeps-handle (call_update_rule req) =
        search (key_rules, Keeps-resolve_policy, Keeps-resolve_rule, Keeps-check_rule) depth 18
    Keeps-handle (call_preview req) = search (key_rules, Keeps-dry_run) depth 16

    -- Policies and rules keep distinct ids, each rule belongs to a policy that is there, and each
    -- reference of a rule to an object group satisfies what all of them did at first, through any
    -- sequence of requests on policies, rules and versions, with any statements failing.
    pub serve-IsWellFormed :
        (calls : List Call) (s : Server)
        → IsWellFormed P s.store.tables
        → IsWellFormed P (serve codec db f cascade process_tenant calls s).store.tables
    unfolding serve server_tables
    serve-IsWellFormed [] s w = w
    serve-IsWellFormed (c ∷ cs) s w =
        serve-IsWellFormed cs (handle codec db f cascade process_tenant c s).0
          ((Keeps-handle c).at s w)
