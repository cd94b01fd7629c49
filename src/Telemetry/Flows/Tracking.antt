-- ===== src/Telemetry/Flows/Tracking.antt =====
-- What a scan of the flow collector tracks and reports.
use qf.Common.{
  ℕ, ◌≡◌, ◌↔◌, ◌∙◌, refl, ap, Bool, true, Option, none, some, List, [], ◌∷◌, text_eq_iff, ◌==◌,
  Bool-cases, Option-cases, inl, inr, arith, if◌then◌else◌, length,
}
use qf.Loader.Conntrack.{ConntrackEntry, Table, conntrack_dump, from_ct_kv}
use qf.Telemetry.Flows.{
  FlowKey, FlowState, FlowEventCollector, flow_key_eq, find_flow, is_closed, entry_key, put_flow,
  track, register_new, current_of, scan,
}

flow_key_eq_iff : (a b : FlowKey) → (flow_key_eq a b ≡ true) ↔ (a ≡ b)
unfolding flow_key_eq
flow_key_eq_iff a b = ground (arith, text_eq_iff a.src_ip b.src_ip, text_eq_iff a.dst_ip b.dst_ip)

-- What the loop over the tracked flows leaves of one that had the state, if any, and is now in the
-- table with the entry, if any.
abbrev goes_on : Option FlowState → Option ConntrackEntry → Option FlowState
goes_on none cur = none
goes_on (some st) none = none
goes_on (some st) (some e) =
    if is_closed e then none else some (record { first_seen = st.first_seen; entry = e })

goes_on-none : (old : Option FlowState) → goes_on old none ≡ none
goes_on-none none = refl
goes_on-none (some st) = refl

goes_on-closed :
    (old : Option FlowState) (e : ConntrackEntry) → is_closed e ≡ true → goes_on old (some e) ≡ none
goes_on-closed none e r = refl
goes_on-closed (some st) e r = rw r refl

find_flow-track :
    (k : FlowKey) (now : ℕ) (current : List (FlowKey × ConntrackEntry))
    (m : List (FlowKey × FlowState))
    → find_flow k (track now current m).0 ≡ goes_on (find_flow k m) (find_flow k current)
unfolding find_flow track
find_flow-track k now current [] = refl
find_flow-track k now current ((j, st) ∷ m) =
    let ih = find_flow-track k now current m in
    elim (Bool-cases (flow_key_eq j k)) [
      | inl p ↦
          let same : find_flow j current ≡ find_flow k current =
            ap (λ (i : FlowKey). find_flow i current) ((flow_key_eq_iff j k).0 p) in
          elim (Option-cases (find_flow k current)) [
            | inl q ↦ rw (track, same, q, p) (ih ∙ rw q (goes_on-none (find_flow k m)))
            | inr (e, q) ↦ elim (Bool-cases (is_closed e)) [
              | inl r ↦
                  rw (track, same, q, r, p, r) (ih ∙ rw q (goes_on-closed (find_flow k m) e r))
              | inr r ↦ rw (track, same, q, r, p, find_flow, r) refl
            ]
          ]
      | inr p ↦ elim (Option-cases (find_flow j current)) [
        | inl q ↦ rw (track, q, find_flow, p) ih
        | inr (e, q) ↦ elim (Bool-cases (is_closed e)) [
          | inl r ↦ rw (track, q, r, find_flow, p) ih
          | inr r ↦ rw (track, q, r, find_flow, p) ih
        ]
      ]
    ]

abbrev or_new : ℕ → Option FlowState → Option ConntrackEntry → Option FlowState
or_new now (some st) cur = some st
or_new now none none = none
or_new now none (some e) = some (record { first_seen = now; entry = e })

or_new-none : (now : ℕ) (old : Option FlowState) → old ≡ or_new now old none
or_new-none now none = refl
or_new-none now (some st) = refl

find_flow-register_new :
    (k : FlowKey) (now : ℕ) (current : List (FlowKey × ConntrackEntry))
    (m : List (FlowKey × FlowState))
    → find_flow k (register_new now current m) ≡ or_new now (find_flow k m) (find_flow k current)
unfolding find_flow register_new
find_flow-register_new k now [] m = or_new-none now (find_flow k m)
find_flow-register_new k now ((j, e) ∷ current) m = elim (Option-cases (find_flow j m)) [
  | inr (st, q) ↦
      let ih = find_flow-register_new k now current m in
      elim (Bool-cases (flow_key_eq j k)) [
        | inl p ↦
            let here : find_flow k m ≡ some st = rw ((flow_key_eq_iff j k).0 p) at q in
            rw (q, p) (ih ∙ rw here refl)
        | inr p ↦ rw (q, p) ih
      ]
  | inl q ↦
      let ih =
        find_flow-register_new k now current ((j, record { first_seen = now; entry = e }) ∷ m) in
      elim (Bool-cases (flow_key_eq j k)) [
        | inl p ↦
            let here : find_flow k m ≡ none = rw ((flow_key_eq_iff j k).0 p) at q in
            rw (q, p, here) (ih ∙ rw p refl)
        | inr p ↦ rw (q, p) (ih ∙ rw p refl)
      ]
]

-- A flow that is in the table is tracked since it was first seen, or since now where it is new or
-- its entry is closed (6).
abbrev pub since : ℕ → Option FlowState → ConntrackEntry → ℕ
since now none e = now
since now (some st) e = if e.tcp_state == 6 then now else st.first_seen

abbrev pub tracked_after : ℕ → Option FlowState → Option ConntrackEntry → Option FlowState
tracked_after now old none = none
tracked_after now old (some e) = some (record { first_seen = since now old e; entry = e })

tracked_after-steps :
    (now : ℕ) (old : Option FlowState) (cur : Option ConntrackEntry)
    → or_new now (goes_on old cur) cur ≡ tracked_after now old cur
tracked_after-steps now none none = refl
tracked_after-steps now (some st) none = refl
tracked_after-steps now none (some e) = refl
tracked_after-steps now (some st) (some e) = elim (Bool-cases (is_closed e)) [
  | inl p ↦ rw p refl
  | inr p ↦ rw p refl
]

-- The last entry of the table for the flow, in any state.
unfoldable pub last_entry : FlowKey → Table → Option ConntrackEntry
last_entry k [] = none
last_entry k ((j, v) ∷ t) = elim (last_entry k t) [
  | some e ↦ some e
  | none ↦ if flow_key_eq (entry_key (from_ct_kv j v)) k then some (from_ct_kv j v) else none
]

abbrev or_else : Option ConntrackEntry → Option ConntrackEntry → Option ConntrackEntry
or_else (some e) o = some e
or_else none o = o

find_flow-put_flow :
    (k j : FlowKey) (e : ConntrackEntry) (m : List (FlowKey × ConntrackEntry))
    → find_flow k (put_flow j e m) ≡ (if flow_key_eq j k then some e else find_flow k m)
unfolding find_flow put_flow
find_flow-put_flow k j e [] = refl
find_flow-put_flow k j e ((i, f) ∷ m) = ground (
  arith,
  find_flow-put_flow k j e m,
  flow_key_eq_iff i j,
  flow_key_eq_iff i k,
  flow_key_eq_iff j k,
)

find_flow-current_of :
    (k : FlowKey) (t : Table) (m : List (FlowKey × ConntrackEntry))
    → find_flow k (current_of (conntrack_dump t) m) ≡ or_else (last_entry k t) (find_flow k m)
unfolding current_of conntrack_dump last_entry
find_flow-current_of k [] m = refl
find_flow-current_of k ((j, v) ∷ t) m =
    let e = from_ct_kv j v in
    find_flow-current_of k t (put_flow (entry_key e) e m) ∙ elim (Option-cases (last_entry k t)) [
      | inr (f, p) ↦ rw p refl
      | inl p ↦ rw p (find_flow-put_flow k (entry_key e) e m ∙ here e)
    ]
  where
    here :
        (e : ConntrackEntry)
        → (if flow_key_eq (entry_key e) k then some e else find_flow k m)
          ≡ or_else (if flow_key_eq (entry_key e) k then some e else none) (find_flow k m)
    here e = elim (Bool-cases (flow_key_eq (entry_key e) k)) [
      | inl p ↦ rw p refl
      | inr p ↦ rw p refl
    ]

or_else-none : (k : FlowKey) (o : Option ConntrackEntry) → or_else o (find_flow k []) ≡ o
unfolding find_flow
or_else-none k none = refl
or_else-none k (some e) = refl

-- After a scan whose dump succeeds the collector tracks exactly the flows of the table, the closed
-- ones too, each with its last entry there. A flow that was tracked before keeps the time when it
-- was first seen, unless its entry is closed: a closed flow is registered again as if it were new.
pub find_flow-scan :
    (k : FlowKey) (now : ℕ) (send_ok : Bool) (table : Table) (fc : FlowEventCollector)
    → find_flow k (scan now send_ok (some table) fc).tracked
      ≡ tracked_after now (find_flow k fc.tracked) (last_entry k table)
unfolding scan
find_flow-scan k now send_ok table fc =
    let current = current_of (conntrack_dump table) [] in
    let same : find_flow k (register_new now current (track now current fc.tracked).0)
        ≡ tracked_after now (find_flow k fc.tracked) (last_entry k table) =
      find_flow-register_new k now current (track now current fc.tracked).0
      ∙ ap (λ (o : Option FlowState). or_new now o (find_flow k current))
          (find_flow-track k now current fc.tracked)
      ∙ tracked_after-steps now (find_flow k fc.tracked) (find_flow k current)
      ∙ ap (tracked_after now (find_flow k fc.tracked))
          (find_flow-current_of k table [] ∙ or_else-none k (last_entry k table)) in
    elim (Bool-cases (length (track now current fc.tracked).1 == 0)) [
      | inl p ↦ rw p same
      | inr p ↦ elim (Bool-cases send_ok) [ inl q ↦ rw (p, q) same | inr q ↦ rw (p, q) same ]
    ]
