-- ===== src/Store.antt =====
-- The control plane's database, cp/migrations and cp/internal/store: its tables as lists of rows,
-- and a statement as a function of them. What PostgreSQL decides by itself is the parameter
-- Database.
pub mod Rules
pub mod Policies
pub mod Versions
pub mod Hosts
pub mod Groups
pub mod Reads
pub mod Laws
pub mod Keeps
pub mod WellFormed
use qf.Common.{
  ℕ, ◌+◌, Bool, true, false, not, ◌&&◌, Option, none, some, List, Text, Result, ok, err,
  if◌then◌else◌,
}
use qf.Common.Int.{ℤ, pos, ltb_ℤ}
use qf.Common.Exec.{Exec}
use qf.Policy.{Raw, Uuid, PolicyRow, Rule, Host, DefaultPolicy, ObjectGroup}

pub record PolicyRecord : Type 0 where
  pub policy : PolicyRow
  pub tenant_id : Uuid
  pub description : Text
  pub current_version : ℤ
  pub created_at : ℕ
  pub updated_at : ℕ

pub record RuleRecord : Type 0 where
  pub rule : Rule
  pub created_at : ℕ
  pub updated_at : ℕ

pub record ConfigVersion : Type 0 where
  pub id : Uuid
  pub tenant_id : Uuid
  pub entity_type : Text
  pub entity_id : Uuid
  pub version : ℤ
  pub content : Raw
  pub created_by : Text
  pub created_at : ℕ

pub record HostRecord : Type 0 where
  pub host : Host
  pub tenant_id : Uuid
  pub last_heartbeat_at : Option ℕ
  pub agent_version : Option Text
  pub kernel_version : Option Text
  pub flow_events_enabled : Bool
  pub created_at : ℕ
  pub updated_at : ℕ

pub record RuleObjectgroupRef : Type 0 where
  pub rule_id : Uuid
  pub object_group_id : Uuid
  pub role : Text

pub record GroupRecord : Type 0 where
  pub group : ObjectGroup
  pub tenant_id : Uuid
  pub name : Text
  pub resolved_cidrs : Option Raw
  pub resolved_at : Option ℕ
  pub created_at : ℕ
  pub updated_at : ℕ

pub record DefaultPolicyRecord : Type 0 where
  pub policy : DefaultPolicy
  pub id : Uuid
  pub tenant_id : Uuid
  pub updated_at : ℕ

pub record Tables : Type 0 where
  pub policies : List PolicyRecord
  pub rules : List RuleRecord
  pub versions : List ConfigVersion
  pub hosts : List HostRecord
  pub refs : List RuleObjectgroupRef
  pub object_groups : List GroupRecord
  pub default_policies : List DefaultPolicyRecord

-- A statement is known by its number in the run of the program: `up` is whether the connection
-- and the foreign keys let it through, `now` its time, `new_id` the id that it generates; `jsonb`
-- is the text that a JSON column gives back.
pub record Database : Type 0 where
  pub up : ℕ → Bool
  pub now : ℕ → ℕ
  pub new_id : ℕ → Uuid
  pub jsonb : Raw → Raw

-- pgx.ErrNoRows, and any other error.
pub data StoreError : Type 0 where
  no_rows refused : StoreError

-- After an error in a transaction PostgreSQL refuses all statements up to its end: `aborted`.
pub record Store : Type 0 where
  pub tables : Tables
  pub statements : ℕ
  pub in_transaction : Bool
  pub aborted : Bool

abbrev aborts : StoreError → Bool
aborts no_rows = false
aborts refused = true

-- The state after a statement that has failed.
abbrev pub failed : StoreError → Store → Store
failed e s = record s {
  statements = s.statements + 1;
  aborted = if aborts e && s.in_transaction then true else s.aborted;
}

abbrev pub executed : Tables → Store → Store
executed t s = record s { tables = t; statements = s.statements + 1 }

module _ {A : Type 0} (db : Database) where
  abbrev done : Store → Result StoreError (Tables × A) → Store × Result StoreError A
  done s (ok (t, a)) = (executed t s, ok a)
  done s (err e) = (failed e s, err e)

  -- One statement.
  unfoldable pub statement : (ℕ → Tables → Result StoreError (Tables × A)) → Exec Store StoreError A
  statement f s =
      if db.up s.statements && not s.aborted
      then done s (f s.statements s.tables)
      else (failed refused s, err refused)

abbrev pub ended : Tables → Store → Store
ended t s = record s {
  tables = t;
  statements = s.statements + 1;
  in_transaction = false;
  aborted = false;
}

module _ {E A : Type 0} (db : Database) (begin_error commit_error : E) where
  -- The deferred Rollback does nothing after a Commit.
  abbrev settle : Tables → Store × Result E A → Store × Result E A
  settle old (s, ok a) =
      if db.up s.statements && not s.aborted
      then (ended s.tables s, ok a)
      else (ended old s, err commit_error)
  settle old (s, err e) = (ended old s, err e)

  -- Begin, the block, and Commit; an early return leaves the tables as they were.
  unfoldable pub transaction : Exec Store E A → Exec Store E A
  transaction block s =
      if db.up s.statements
      then settle s.tables (
          block
            (record s { statements = s.statements + 1; in_transaction = true; aborted = false }))
      else (failed refused s, err begin_error)

abbrev pub is_there : {A : Type 0} → Option A → Bool
is_there none = false
is_there (some a) = true

-- An INT column: the largest value has no successor.
abbrev pub has_next : ℤ → Bool
has_next n = ltb_ℤ n (pos 2147483647)

abbrev pub one : {A : Type 0} → Tables → Option A → Result StoreError (Tables × A)
one t none = err no_rows
one t (some a) = ok (t, a)
