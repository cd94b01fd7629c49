-- ===== src/Api/Hosts/Valid.antt =====
-- The handlers of /hosts, the agents' sessions and the sweep keep the table hosts valid.
use qf.Common.{Bool, Option, none, some, List, [], ◌∷◌, Text}
use qf.Common.Int.{ℤ}
use qf.Common.Exec.{Exec}
use qf.Policy.{Uuid, Labels, Codec}
use qf.Store.{Database, HostRecord}
use qf.Store.Keeps.{Keeps, tables_of, keeps_rules}
use qf.Store.Hosts.{
  HostParams, upsert_bulk_host, update_host_generation, update_host_heartbeat,
  update_host_connected, increment_host_desired_generation, mark_stale_hosts,
}
use qf.Store.Hosts.Valid.{
  IsValid, Keeps-create_host, Keeps-upsert_bulk_host, Keeps-get_host, Keeps-list_hosts,
  Keeps-update_host_labels, Keeps-update_host_status, Keeps-update_host_flow_enabled,
  Keeps-update_host_generation, Keeps-update_host_heartbeat, Keeps-update_host_connected,
  Keeps-increment_host_desired_generation, Keeps-delete_host, Keeps-mark_stale_hosts,
}
use qf.Api.{Request, Server}
use qf.Api.Keys.{server_tables, Keeps-on_store, Keeps-start, Keeps-set_audit_before, Keeps-or_fail}
use qf.Api.Hosts.{
  CreateHostRequest, PatchHostRequest, HostFormats, list, create, get, delete, compiled_ruleset,
  get_ruleset, patch_labels, patch_status, patch_flow_enabled, or_current, note_host, patch_host,
  patch,
}

ruleset host_rules = (
  keeps_rules, Keeps-on_store, Keeps-start, Keeps-set_audit_before, Keeps-or_fail,
  Keeps-create_host, Keeps-get_host, Keeps-list_hosts, Keeps-update_host_labels,
  Keeps-update_host_status, Keeps-update_host_flow_enabled, Keeps-delete_host,
)

abbrev KeepsHosts : {E A : Type 0} → Exec Server E A → Type 0
KeepsHosts m = Keeps server_tables IsValid m

-- A request to /hosts, or a write to the table by a session, an enrollment, a cascade or the sweep.
pub data Event : Type 0 where
  host_list host_get host_delete host_get_ruleset : Request (Unit {0}) → Event
  host_create : Request CreateHostRequest → Event
  host_patch : Request PatchHostRequest → Event
  host_enrolled : Uuid → HostParams → Event
  host_connected : Uuid → Uuid → Option Text → Option Text → Event
  host_heartbeat host_applied : Uuid → Uuid → ℤ → Event
  host_recompiled : Uuid → Uuid → Event
  sweep : Event

module _ (codec : Codec) (db : Database) (f : HostFormats) (cascade disconnector : Bool) where
  module _ (id tenant : Uuid) where
    Keeps-patch_labels :
        (m : Option (Option Labels)) (h : Option HostRecord)
        → KeepsHosts (patch_labels codec db f cascade disconnector id tenant m h)
    unfolding patch_labels
    Keeps-patch_labels none h = search host_rules depth 10
    Keeps-patch_labels (some m) h = search host_rules depth 20

    Keeps-patch_status :
        (s : Option Text) (h : Option HostRecord)
        → KeepsHosts (patch_status codec db f cascade disconnector id tenant s h)
    unfolding patch_status
    Keeps-patch_status none h = search host_rules depth 10
    Keeps-patch_status (some s) h = search host_rules depth 20

    Keeps-patch_flow_enabled :
        (b : Option Bool) (h : Option HostRecord)
        → KeepsHosts (patch_flow_enabled codec db f cascade disconnector id tenant b h)
    unfolding patch_flow_enabled
    Keeps-patch_flow_enabled none h = search host_rules depth 10
    Keeps-patch_flow_enabled (some b) h = search host_rules depth 20

    Keeps-or_current :
        (h : Option HostRecord)
        → KeepsHosts (or_current codec db f cascade disconnector id tenant h)
    unfolding or_current
    Keeps-or_current none = search host_rules depth 10
    Keeps-or_current (some h) = search host_rules depth 10

    Keeps-patch_host :
        (body : PatchHostRequest)
        → KeepsHosts (patch_host codec db f cascade disconnector id tenant body)
    unfolding patch_host note_host
    Keeps-patch_host body =
        search
          (
            host_rules, Keeps-patch_labels, Keeps-patch_status, Keeps-patch_flow_enabled,
            Keeps-or_current,
          )
          depth 20

  Keeps-compiled_ruleset :
      (tenant : Uuid) (id : Text) → KeepsHosts (compiled_ruleset codec db f tenant id)
  unfolding compiled_ruleset server_tables
  Keeps-compiled_ruleset tenant id = record { at = λ s h. h }

  -- The state after the event.
  unfoldable pub step : Event → Server → Server
  step (host_list req) s = (list codec db f req s).0
  step (host_get req) s = (get codec db f req s).0
  step (host_delete req) s = (delete codec db f req s).0
  step (host_get_ruleset req) s = (get_ruleset codec db f req s).0
  step (host_create req) s = (create codec db f req s).0
  step (host_patch req) s = (patch codec db f cascade disconnector req s).0
  step (host_enrolled tenant a) s = record s { store = (upsert_bulk_host db tenant a s.store).0 }
  step (host_connected id tenant v k) s = record s {
    store = (update_host_connected db id tenant v k s.store).0;
  }
  step (host_heartbeat id tenant g) s = record s {
    store = (update_host_heartbeat db id tenant g s.store).0;
  }
  step (host_applied id tenant g) s = record s {
    store = (update_host_generation db id tenant g s.store).0;
  }
  step (host_recompiled id tenant) s = record s {
    store = (increment_host_desired_generation db id tenant s.store).0;
  }
  step sweep s = record s { store = (mark_stale_hosts db s.store).0 }

  step-IsValid : (e : Event) (s : Server) → IsValid s.store.tables → IsValid (step e s).store.tables
  unfolding step list get delete get_ruleset create patch server_tables tables_of
  step-IsValid (host_list req) s w =
      let k : KeepsHosts (list codec db f req) = search host_rules depth 16 in k.at s w
  step-IsValid (host_get req) s w =
      let k : KeepsHosts (get codec db f req) = search host_rules depth 16 in k.at s w
  step-IsValid (host_delete req) s w =
      let k : KeepsHosts (delete codec db f req) = search host_rules depth 16 in k.at s w
  step-IsValid (host_get_ruleset req) s w =
      let k : KeepsHosts (get_ruleset codec db f req) =
        search (host_rules, Keeps-compiled_ruleset) depth 16 in
      k.at s w
  step-IsValid (host_create req) s w =
      let k : KeepsHosts (create codec db f req) = search host_rules depth 16 in k.at s w
  step-IsValid (host_patch req) s w =
      let k : KeepsHosts (patch codec db f cascade disconnector req) =
        search (host_rules, Keeps-patch_host) depth 16 in
      k.at s w
  step-IsValid (host_enrolled tenant a) s w = (Keeps-upsert_bulk_host db tenant a).at s.store w
  step-IsValid (host_connected id tenant v k) s w =
      (Keeps-update_host_connected db id tenant v k).at s.store w
  step-IsValid (host_heartbeat id tenant g) s w =
      (Keeps-update_host_heartbeat db id tenant g).at s.store w
  step-IsValid (host_applied id tenant g) s w =
      (Keeps-update_host_generation db id tenant g).at s.store w
  step-IsValid (host_recompiled id tenant) s w =
      (Keeps-increment_host_desired_generation db id tenant).at s.store w
  step-IsValid sweep s w = (Keeps-mark_stale_hosts db).at s.store w

  unfoldable pub run : List Event → Server → Server
  run [] s = s
  run (e ∷ es) s = run es (step e s)

  -- Through any sequence of requests to /hosts, connections, heartbeats, applied bundles,
  -- enrollments, recompilations and sweeps, whichever statements fail, no two hosts have one id and
  -- each host's status is one of the five that the table allows.
  pub run-IsValid :
      (es : List Event) (s : Server) → IsValid s.store.tables → IsValid (run es s).store.tables
  unfolding run
  run-IsValid [] s w = w
  run-IsValid (e ∷ es) s w = run-IsValid es (step e s) (step-IsValid e s w)
