-- ===== src/Loader/Conntrack/Sweep.antt =====
-- What the sweep removes from the table.
use qf.Common.{
  ℕ, ◌+◌, ◌-◌, ◌%◌, ◌^◌, ltb, ◌==◌, ◌≡◌, ◌↔◌, refl, ap, ◌∙◌, Bool, true, false, ◌&&◌, ◌||◌, Option,
  none, List, [], ◌∷◌, All, arith, if◌then◌else◌,
}
use qf.Loader.Conntrack.{
  CtKey, CtEntry, ConntrackEntry, Table, ct_key_eq, canonical_ct_key, from_ct_kv, conntrack_dump,
  find, delete, timeout_of, expired, sweep_entries, sweep_conntrack,
}
use qf.Loader.Conntrack.Keys.{IsCanonical, canonical_ct_key-from_ct_kv}

-- The age of an entry in 64 bits.
abbrev age : ℕ → CtEntry → ℕ
age now v = (now + 2 ^ 64 - v.last_seen_ns) % 2 ^ 64

-- UDP (3) and closed TCP (2, in the state 6) by the one timeout, ICMP (4) by the other.
unfoldable pub is_stale : ℕ → ℕ → ℕ → CtKey → CtEntry → Bool
is_stale now udp icmp j v =
    ((j.proto == 3 || (j.proto == 2 && v.tcp_state == 6)) && ltb udp (age now v))
    || (j.proto == 4 && ltb icmp (age now v))

expired-from_ct_kv :
    (now udp icmp : ℕ) (j : CtKey) (v : CtEntry)
    → expired now udp icmp (from_ct_kv j v) ≡ is_stale now udp icmp j v
unfolding expired timeout_of from_ct_kv is_stale
expired-from_ct_kv now udp icmp j v = ground arith

-- Whether the table holds a stale entry under `k` that can be deleted.
unfoldable pub is_doomed : (CtKey → Bool) → ℕ → ℕ → ℕ → CtKey → Table → Bool
unfolding is_stale
is_doomed delete_ok now udp icmp k [] = false
is_doomed delete_ok now udp icmp k ((j, v) ∷ t) =
    ((is_stale now udp icmp j v && delete_ok j) && ct_key_eq j k)
    || is_doomed delete_ok now udp icmp k t

ct_key_eq_iff : (a b : CtKey) → (ct_key_eq a b ≡ true) ↔ (a ≡ b)
unfolding ct_key_eq
ct_key_eq_iff a b = ground arith

find-delete :
    (j k : CtKey) (t : Table) → find k (delete j t) ≡ (if ct_key_eq j k then none else find k t)
unfolding find delete
find-delete j k [] = ground arith
find-delete j k ((i, v) ∷ t) =
    ground (arith, ct_key_eq_iff i j, ct_key_eq_iff i k, ct_key_eq_iff j k, find-delete j k t)

choices :
    (r e d : Bool) (x y : Option CtEntry)
    → y ≡ (if r && e then none else x)
    → (if d then none else y) ≡ (if (r && e) || d then none else x)
choices r e d x y h = ground arith

module _ (delete_ok : CtKey → Bool) (now udp icmp : ℕ) where
  -- One round of the sweep, for an entry under the key `j`.
  sweep_step :
      (e : ConntrackEntry) (es : List ConntrackEntry) (t : Table) (j : CtKey)
      → canonical_ct_key e.key ≡ j
      → sweep_entries delete_ok now udp icmp (e ∷ es) t
        ≡ sweep_entries delete_ok now udp icmp es
            (if expired now udp icmp e && delete_ok j then delete j t else t)
  unfolding sweep_entries
  sweep_step e es t j same =
      ap
        (λ (key : CtKey).
          sweep_entries delete_ok now udp icmp es
            (if expired now udp icmp e && delete_ok key then delete key t else t))
        same

  find-sweep_entries :
      (k : CtKey) (t u : Table)
      → All (λ (e : CtKey × CtEntry). IsCanonical e.0) u
      → find k (sweep_entries delete_ok now udp icmp (conntrack_dump u) t)
        ≡ (if is_doomed delete_ok now udp icmp k u then none else find k t)
  unfolding sweep_entries conntrack_dump is_doomed
  find-sweep_entries k t [] h = refl
  find-sweep_entries k t ((j, v) ∷ u) h =
      let same = canonical_ct_key-from_ct_kv j v h.0 in
      let removed = is_stale now udp icmp j v && delete_ok j in
      let t' = if removed then delete j t else t in
      ap (find k) (
        sweep_step (from_ct_kv j v) (conntrack_dump u) t j same
        ∙ ap
            (λ (b : Bool).
              sweep_entries delete_ok now udp icmp (conntrack_dump u)
                (if b && delete_ok j then delete j t else t))
            (expired-from_ct_kv now udp icmp j v))
      ∙ find-sweep_entries k t' u h.1
      ∙ choices removed (ct_key_eq j k) (is_doomed delete_ok now udp icmp k u) (find k t)
          (find k t') (found removed)
    where
      found :
          (b : Bool)
          → find k (if b then delete j t else t) ≡ (if b && ct_key_eq j k then none else find k t)
      found true = find-delete j k t
      found false = refl

  -- The sweep of a canonical table removes exactly the entries that are stale and whose deletion
  -- succeeds, and keeps all others as they are. A UDP entry, and a TCP entry that is closed, is
  -- stale when it is older than the UDP timeout, an ICMP entry when it is older than the ICMP
  -- timeout; a TCP entry that is not closed, or one of another protocol, never is. The age is the
  -- difference of the times in 64 bits.
  pub find-sweep_conntrack :
      (k : CtKey) (t : Table)
      → All (λ (e : CtKey × CtEntry). IsCanonical e.0) t
      → find k (sweep_conntrack delete_ok now udp icmp t)
        ≡ (if is_doomed delete_ok now udp icmp k t then none else find k t)
  unfolding sweep_conntrack
  find-sweep_conntrack k t h = find-sweep_entries k t t h
