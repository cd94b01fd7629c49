-- ===== src/Store/Hosts.antt =====
-- cp/internal/store/gen/hosts.sql.go: the table hosts, with the constraints of cp/migrations.
pub mod Valid
use qf.Common.{
  ℕ, ◌+◌, Bool, true, false, not, ◌&&◌, ◌||◌, Option, none, some, List, [], ◌∷◌, ◌++◌, Text,
  text_eq, codes, Result, ok, err, if◌then◌else◌, ltb,
}
use qf.Common.Int.{ℤ, pos, inc}
use qf.Common.Exec.{Exec}
use qf.Common.Tables.{find_row, rows_where, delete_where, update_where}
use qf.Common.Sort.{sort_by}
use qf.Policy.{Raw, Uuid, Host}
use qf.Store.{
  Database, Tables, Store, StoreError, refused, no_rows, HostRecord, statement, is_there, has_next,
  one,
}

pub record HostParams : Type 0 where
  pub hostname : Text
  pub labels : Raw
  pub status : Text

abbrev pub is_host : Uuid → Uuid → HostRecord → Bool
is_host id tenant_id h = text_eq h.host.id id && text_eq h.tenant_id tenant_id

-- UNIQUE (tenant_id, hostname).
abbrev pub is_named : Uuid → Text → HostRecord → Bool
is_named tenant_id name h = text_eq h.tenant_id tenant_id && text_eq h.host.hostname name

abbrev newest_first : HostRecord → HostRecord → Bool
newest_first a b = ltb b.created_at a.created_at

-- The CHECK on the status.
unfoldable pub takes_status : Text → Bool
takes_status s =
    text_eq s (codes "enrolling")
    || (text_eq s (codes "active")
        || (text_eq s (codes "stale")
            || (text_eq s (codes "needs_rebootstrap") || text_eq s (codes "revoked"))))

abbrev pub set_status : Text → ℕ → HostRecord → HostRecord
set_status status now h = record h { host = record h.host { status = status }; updated_at = now }

abbrev pub set_labels : Raw → ℕ → HostRecord → HostRecord
set_labels labels now h = record h { host = record h.host { labels = labels }; updated_at = now }

abbrev pub set_flow_enabled : Bool → ℕ → HostRecord → HostRecord
set_flow_enabled on now h = record h { flow_events_enabled = on; updated_at = now }

abbrev pub set_generation : ℤ → ℕ → HostRecord → HostRecord
set_generation g now h = record h {
  host = record h.host { current_generation = g };
  updated_at = now;
}

abbrev pub set_heartbeat : ℤ → ℕ → HostRecord → HostRecord
set_heartbeat g now h = record (set_generation g now h) { last_heartbeat_at = some now }

abbrev pub set_connected : Option Text → Option Text → ℕ → HostRecord → HostRecord
set_connected agent kernel now h = record (set_status (codes "active") now h) {
  agent_version = agent;
  kernel_version = kernel;
  last_heartbeat_at = some now;
}

abbrev pub increment_desired : ℕ → HostRecord → HostRecord
increment_desired now h = record h {
  host = record h.host { desired_generation = inc h.host.desired_generation };
  updated_at = now;
}

-- last_heartbeat_at < NOW() - INTERVAL '90 seconds', by the microsecond; NULL is not before.
abbrev is_late : ℕ → Option ℕ → Bool
is_late now none = false
is_late now (some t) = ltb (t + 90000000) now

abbrev pub is_overdue : ℕ → HostRecord → Bool
is_overdue now h = text_eq h.host.status (codes "active") && is_late now h.last_heartbeat_at

-- What ListHosts returns.
unfoldable pub hosts_of : Uuid → Tables → List HostRecord
unfolding rows_where sort_by
hosts_of tenant_id t =
    sort_by newest_first (rows_where (λ h. text_eq h.tenant_id tenant_id) t.hosts)

module _ (db : Database) where
  abbrev pub new_host : ℕ → Uuid → HostParams → HostRecord
  new_host n tenant_id a = record {
    host = record {
      id = db.new_id n;
      hostname = a.hostname;
      labels = db.jsonb a.labels;
      status = a.status;
      current_generation = pos 0;
      desired_generation = pos 0;
    };
    tenant_id = tenant_id;
    last_heartbeat_at = none;
    agent_version = none;
    kernel_version = none;
    flow_events_enabled = false;
    created_at = db.now n;
    updated_at = db.now n;
  }

  unfoldable pub takes_host : ℕ → Uuid → HostParams → Tables → Bool
  takes_host n tenant_id a t =
      takes_status a.status
      && (not (is_there (find_row (is_named tenant_id a.hostname) t.hosts))
          && not (is_there (find_row (λ h. text_eq h.host.id (db.new_id n)) t.hosts)))

  unfoldable pub create_host : Uuid → HostParams → Exec Store StoreError HostRecord
  create_host tenant_id a = statement db λ n t.
      if takes_host n tenant_id a t
      then ok (record t { hosts = t.hosts ++ new_host n tenant_id a ∷ [] }, new_host n tenant_id a)
      else err refused

  -- One row changed by its id and tenant, which is returned.
  abbrev pub changed : (HostRecord → HostRecord) → Uuid → Uuid → Tables → Tables
  changed f id tenant_id t = record t { hosts = update_where (is_host id tenant_id) f t.hosts }

  abbrev change :
      (HostRecord → HostRecord)
      → Uuid
      → Uuid
      → Tables
      → Option HostRecord
      → Result StoreError (Tables × HostRecord)
  change f id tenant_id t none = err no_rows
  change f id tenant_id t (some h) = ok (changed f id tenant_id t, f h)

  -- ON CONFLICT (tenant_id, hostname) DO UPDATE.
  abbrev pub enrolling_again : Raw → ℕ → HostRecord → HostRecord
  enrolling_again labels now h = set_status (codes "enrolling") now (set_labels labels now h)

  abbrev upsert :
      ℕ → Uuid → HostParams → Tables → Option HostRecord → Result StoreError (Tables × HostRecord)
  upsert n tenant_id a t none =
      if takes_host n tenant_id a t
      then ok (record t { hosts = t.hosts ++ new_host n tenant_id a ∷ [] }, new_host n tenant_id a)
      else err refused
  upsert n tenant_id a t (some h) =
      if takes_status a.status
      then ok (
        record t {
          hosts =
              update_where (is_named tenant_id a.hostname)
                (enrolling_again (db.jsonb a.labels) (db.now n)) t.hosts;
        },
        enrolling_again (db.jsonb a.labels) (db.now n) h,
      )
      else err refused

  unfoldable pub upsert_bulk_host : Uuid → HostParams → Exec Store StoreError HostRecord
  upsert_bulk_host tenant_id a =
      statement db λ n t. upsert n tenant_id a t (find_row (is_named tenant_id a.hostname) t.hosts)

  unfoldable pub get_host : Uuid → Uuid → Exec Store StoreError HostRecord
  get_host id tenant_id = statement db λ n t. one t (find_row (is_host id tenant_id) t.hosts)

  unfoldable pub list_hosts : Uuid → Exec Store StoreError (List HostRecord)
  list_hosts tenant_id = statement db λ n t. ok (t, hosts_of tenant_id t)

  unfoldable pub list_hosts_by_status : Uuid → Text → Exec Store StoreError (List HostRecord)
  list_hosts_by_status tenant_id status = statement db λ n t. ok (
    t,
    sort_by newest_first
        (rows_where (λ h. text_eq h.tenant_id tenant_id && text_eq h.host.status status) t.hosts),
  )

  unfoldable pub update_host_labels : Uuid → Uuid → Raw → Exec Store StoreError HostRecord
  update_host_labels id tenant_id labels = statement db λ n t.
      change (set_labels (db.jsonb labels) (db.now n)) id tenant_id t
        (find_row (is_host id tenant_id) t.hosts)

  unfoldable pub update_host_status : Uuid → Uuid → Text → Exec Store StoreError HostRecord
  update_host_status id tenant_id status = statement db λ n t.
      if is_there (find_row (is_host id tenant_id) t.hosts) && not (takes_status status)
      then err refused
      else change (set_status status (db.now n)) id tenant_id t
          (find_row (is_host id tenant_id) t.hosts)

  unfoldable pub update_host_flow_enabled : Uuid → Uuid → Bool → Exec Store StoreError (Unit {0})
  update_host_flow_enabled id tenant_id on =
      statement db λ n t. ok (changed (set_flow_enabled on (db.now n)) id tenant_id t, tt)

  unfoldable pub update_host_generation : Uuid → Uuid → ℤ → Exec Store StoreError (Unit {0})
  update_host_generation id tenant_id g =
      statement db λ n t. ok (changed (set_generation g (db.now n)) id tenant_id t, tt)

  unfoldable pub update_host_heartbeat : Uuid → Uuid → ℤ → Exec Store StoreError (Unit {0})
  update_host_heartbeat id tenant_id g =
      statement db λ n t. ok (changed (set_heartbeat g (db.now n)) id tenant_id t, tt)

  unfoldable pub update_host_connected :
      Uuid → Uuid → Option Text → Option Text → Exec Store StoreError (Unit {0})
  update_host_connected id tenant_id agent kernel =
      statement db λ n t. ok (changed (set_connected agent kernel (db.now n)) id tenant_id t, tt)

  abbrev pub full : Option HostRecord → Bool
  full none = false
  full (some h) = not (has_next h.host.desired_generation)

  unfoldable pub increment_host_desired_generation : Uuid → Uuid → Exec Store StoreError (Unit {0})
  increment_host_desired_generation id tenant_id = statement db λ n t.
      if full (find_row (is_host id tenant_id) t.hosts)
      then err refused
      else ok (changed (increment_desired (db.now n)) id tenant_id t, tt)

  unfoldable pub delete_host : Uuid → Uuid → Exec Store StoreError (Unit {0})
  delete_host id tenant_id =
      statement db λ n t. ok (record t { hosts = delete_where (is_host id tenant_id) t.hosts }, tt)

  unfoldable pub mark_stale_hosts : Exec Store StoreError (Unit {0})
  mark_stale_hosts = statement db λ n t. ok (
    record t {
      hosts = update_where (is_overdue (db.now n)) (set_status (codes "stale") (db.now n)) t.hosts;
    },
    tt,
  )
