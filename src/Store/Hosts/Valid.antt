-- ===== src/Store/Hosts/Valid.antt =====
-- What the table hosts keeps: ids are distinct, and a status is one of the five.
use qf.Common.{
  ℕ, ◌≡◌, refl, Bool, true, Option, none, some, [], ◌∷◌, ◌++◌, All, Text, text_eq, codes, Result,
  Bool-cases, Option-cases, inl, inr, arith,
}
use qf.Common.Int.{ℤ}
use qf.Common.Tables.{find_row, update_where}
use qf.Policy.{Raw, Uuid}
use qf.Store.{Database, Tables, Store, HostRecord, one}
use qf.Store.Keeps.{Keeps, tables_of, Ensures, Keeps-statement}
use qf.Store.WellFormed.{
  has_key, IsUniqueBy, IsUniqueBy-append, IsUniqueBy-delete_where, IsUniqueBy-update_where,
}
use qf.Store.WellFormed.Rows.{All-append_row, All-update_where, All-delete_where}
use qf.Store.Hosts.{
  HostParams, is_host, is_named, takes_status, takes_host, new_host, is_overdue, set_status,
  create_host, upsert_bulk_host, get_host, list_hosts, update_host_labels, update_host_status,
  update_host_flow_enabled, update_host_generation, update_host_heartbeat, update_host_connected,
  increment_host_desired_generation, delete_host, mark_stale_hosts, set_flow_enabled,
  set_generation, set_heartbeat, set_connected, increment_desired, full, enrolling_again,
}

abbrev pub host_key : HostRecord → Text
host_key h = h.host.id

abbrev pub HasStatus : HostRecord → Type 0
HasStatus h = takes_status h.host.status ≡ true

pub record IsValid (t : Tables) : Type 0 where
  pub keys : IsUniqueBy host_key t.hosts
  pub statuses : All HasStatus t.hosts

module _ (t : Tables) (w : IsValid t) where
  -- A row that the constraints let in.
  added-IsValid :
      (h : HostRecord)
      → find_row (has_key host_key h.host.id) t.hosts ≡ none
      → HasStatus h
      → IsValid (record t { hosts = t.hosts ++ h ∷ [] })
  added-IsValid h fresh good = record {
    keys = IsUniqueBy-append host_key t.hosts h w.keys fresh;
    statuses = All-append_row HasStatus t.hosts h w.statuses good;
  }

  changed-IsValid :
      (f : HostRecord → HostRecord) (test : HostRecord → Bool)
      → ((h : HostRecord) → host_key (f h) ≡ host_key h)
      → ((h : HostRecord) → HasStatus h → HasStatus (f h))
      → IsValid (record t { hosts = update_where test f t.hosts })
  changed-IsValid f test fixed good = record {
    keys = IsUniqueBy-update_where host_key f fixed test t.hosts w.keys;
    statuses = All-update_where HasStatus test f t.hosts good w.statuses;
  }

module _ (db : Database) where
  takes_host-facts :
      (n : ℕ) (tenant : Uuid) (a : HostParams) (t : Tables)
      → takes_host db n tenant a t ≡ true
      → (find_row (has_key host_key (db.new_id n)) t.hosts ≡ none) × (takes_status a.status ≡ true)
  unfolding takes_host
  takes_host-facts n tenant a t e =
      elim (Option-cases (find_row (has_key host_key (db.new_id n)) t.hosts)) [
        | inl p ↦ (p, ground (arith, e))
        | inr (h, p) ↦ let bad = rw p at e in ground (arith, bad)
      ]

  abbrev KeepsHosts : {E A : Type 0} → (Store → Store × Result E A) → Type 0
  KeepsHosts m = Keeps tables_of IsValid m

  one-Ensures : {A : Type 0} (t : Tables) (o : Option A) → IsValid t → Ensures IsValid (one t o)
  one-Ensures t none w = tt
  one-Ensures t (some a) w = w

  pub Keeps-create_host : (tenant : Uuid) (a : HostParams) → KeepsHosts (create_host db tenant a)
  unfolding create_host
  Keeps-create_host tenant a = Keeps-statement db _ λ n t w.
      elim (Bool-cases (takes_host db n tenant a t)) [
        | inr e ↦ rw e tt
        | inl e ↦
            let (fresh, good) = takes_host-facts n tenant a t e in
            rw e (added-IsValid t w (new_host db n tenant a) fresh good)
      ]

  pub Keeps-upsert_bulk_host :
      (tenant : Uuid) (a : HostParams) → KeepsHosts (upsert_bulk_host db tenant a)
  unfolding upsert_bulk_host takes_status text_eq
  Keeps-upsert_bulk_host tenant a = Keeps-statement db _ λ n t w.
      elim (Option-cases (find_row (is_named tenant a.hostname) t.hosts)) [
        | inl p ↦ elim (Bool-cases (takes_host db n tenant a t)) [
          | inr e ↦ rw (p, e) tt
          | inl e ↦
              let (fresh, good) = takes_host-facts n tenant a t e in
              rw (p, e) (added-IsValid t w (new_host db n tenant a) fresh good)
        ]
        | inr (h, p) ↦ elim (Bool-cases (takes_status a.status)) [
          | inr e ↦ rw (p, e) tt
          | inl e ↦
              rw (p, e)
                (changed-IsValid t w (enrolling_again db (db.jsonb a.labels) (db.now n))
                  (is_named tenant a.hostname) (λ h. refl) (λ h k. refl))
        ]
      ]

  pub Keeps-get_host : (id tenant : Uuid) → KeepsHosts (get_host db id tenant)
  unfolding get_host
  Keeps-get_host id tenant = Keeps-statement db _ λ n t w. one-Ensures t _ w

  pub Keeps-list_hosts : (tenant : Uuid) → KeepsHosts (list_hosts db tenant)
  unfolding list_hosts
  Keeps-list_hosts tenant = Keeps-statement db _ λ n t w. w

  pub Keeps-update_host_labels :
      (id tenant : Uuid) (labels : Raw) → KeepsHosts (update_host_labels db id tenant labels)
  unfolding update_host_labels
  Keeps-update_host_labels id tenant labels = Keeps-statement db _ λ n t w.
      elim (Option-cases (find_row (is_host id tenant) t.hosts)) [
        | inl p ↦ rw p tt
        | inr (h, p) ↦ rw p (changed-IsValid t w _ _ (λ h. refl) (λ h k. k))
      ]

  pub Keeps-update_host_status :
      (id tenant : Uuid) (status : Text) → KeepsHosts (update_host_status db id tenant status)
  unfolding update_host_status
  Keeps-update_host_status id tenant status = Keeps-statement db _ λ n t w.
      elim (Option-cases (find_row (is_host id tenant) t.hosts)) [
        | inl p ↦ rw p tt
        | inr (h, p) ↦ elim (Bool-cases (takes_status status)) [
          | inr e ↦ rw (p, e) tt
          | inl e ↦ rw (p, e) (changed-IsValid t w _ _ (λ h. refl) (λ h k. e))
        ]
      ]

  pub Keeps-update_host_flow_enabled :
      (id tenant : Uuid) (on : Bool) → KeepsHosts (update_host_flow_enabled db id tenant on)
  unfolding update_host_flow_enabled
  Keeps-update_host_flow_enabled id tenant on = Keeps-statement db _ λ n t w.
      changed-IsValid t w (set_flow_enabled on (db.now n)) (is_host id tenant) (λ h. refl)
        (λ h k. k)

  pub Keeps-update_host_generation :
      (id tenant : Uuid) (g : ℤ) → KeepsHosts (update_host_generation db id tenant g)
  unfolding update_host_generation
  Keeps-update_host_generation id tenant g = Keeps-statement db _ λ n t w.
      changed-IsValid t w (set_generation g (db.now n)) (is_host id tenant) (λ h. refl) (λ h k. k)

  pub Keeps-update_host_heartbeat :
      (id tenant : Uuid) (g : ℤ) → KeepsHosts (update_host_heartbeat db id tenant g)
  unfolding update_host_heartbeat
  Keeps-update_host_heartbeat id tenant g = Keeps-statement db _ λ n t w.
      changed-IsValid t w (set_heartbeat g (db.now n)) (is_host id tenant) (λ h. refl) (λ h k. k)

  pub Keeps-update_host_connected :
      (id tenant : Uuid) (agent kernel : Option Text)
      → KeepsHosts (update_host_connected db id tenant agent kernel)
  unfolding update_host_connected takes_status text_eq
  Keeps-update_host_connected id tenant agent kernel = Keeps-statement db _ λ n t w.
      changed-IsValid t w (set_connected agent kernel (db.now n)) (is_host id tenant) (λ h. refl)
        (λ h k. refl)

  pub Keeps-increment_host_desired_generation :
      (id tenant : Uuid) → KeepsHosts (increment_host_desired_generation db id tenant)
  unfolding increment_host_desired_generation
  Keeps-increment_host_desired_generation id tenant = Keeps-statement db _ λ n t w.
      elim (Bool-cases (full db (find_row (is_host id tenant) t.hosts))) [
        | inl e ↦ rw e tt
        | inr e ↦ rw e (
            changed-IsValid t w (increment_desired (db.now n)) (is_host id tenant) (λ h. refl)
              (λ h k. k))
      ]

  pub Keeps-delete_host : (id tenant : Uuid) → KeepsHosts (delete_host db id tenant)
  unfolding delete_host
  Keeps-delete_host id tenant = Keeps-statement db _ λ n t w. record {
    keys = IsUniqueBy-delete_where host_key (is_host id tenant) t.hosts w.keys;
    statuses =
        All-delete_where HasStatus HasStatus (is_host id tenant) t.hosts (λ h e k. k) w.statuses;
  }

  pub Keeps-mark_stale_hosts : KeepsHosts (mark_stale_hosts db)
  unfolding mark_stale_hosts takes_status text_eq
  Keeps-mark_stale_hosts = Keeps-statement db _ λ n t w.
      changed-IsValid t w (set_status (codes "stale") (db.now n)) (is_overdue (db.now n))
        (λ h. refl) (λ h k. refl)
