-- ===== src/Loader/Conntrack.antt =====
-- agent/internal/loader/conntrack.go: keys, lookups and the sweep of the flow table.
pub mod Keys
pub mod Sweep
use qf.Common.{
  ℕ, ◌+◌, ◌-◌, ◌%◌, ◌^◌, Bool, true, false, not, ◌&&◌, Option, none, some, List, [], ◌∷◌, map, ltb,
  leb, ◌==◌, if◌then◌else◌,
}
use qf.Net.{encode_ip4, decode_ip4}
use qf.Loader.{proto_tcp, proto_udp, proto_icmp}

abbrev pub tcp_cs_closed : ℕ
tcp_cs_closed = 6

pub record ConntrackKey : Type 0 where
  pub src_ip : List ℕ
  pub dst_ip : List ℕ
  pub src_port : ℕ
  pub dst_port : ℕ
  pub protocol : ℕ

-- The key and the value of the BPF table.
pub record CtKey : Type 0 where
  pub src_ip : ℕ
  pub dst_ip : ℕ
  pub src_port : ℕ
  pub dst_port : ℕ
  pub proto : ℕ

pub record CtEntry : Type 0 where
  pub last_seen_ns : ℕ
  pub established_ns : ℕ
  pub packets_fwd : ℕ
  pub bytes_fwd : ℕ
  pub packets_rev : ℕ
  pub bytes_rev : ℕ
  pub state : ℕ
  pub tcp_state : ℕ

pub record ConntrackEntry : Type 0 where
  pub key : ConntrackKey
  pub state : ℕ
  pub tcp_state : ℕ
  pub last_seen_ns : ℕ
  pub established_ns : ℕ
  pub packets_fwd : ℕ
  pub bytes_fwd : ℕ
  pub packets_rev : ℕ
  pub bytes_rev : ℕ

abbrev pub Table : Type 0
Table = List (CtKey × CtEntry)

unfoldable pub ct_key_eq : CtKey → CtKey → Bool
ct_key_eq a b =
    a.src_ip == b.src_ip
    && (a.dst_ip == b.dst_ip
        && (a.src_port == b.src_port && (a.dst_port == b.dst_port && a.proto == b.proto)))

-- The lower address goes first.
unfoldable pub canonical_ct_key : ConntrackKey → CtKey
canonical_ct_key k =
    let s = encode_ip4 k.src_ip in
    let d = encode_ip4 k.dst_ip in
    if leb s d
    then record {
      src_ip = s;
      dst_ip = d;
      src_port = k.src_port;
      dst_port = k.dst_port;
      proto = k.protocol;
    }
    else record {
      src_ip = d;
      dst_ip = s;
      src_port = k.dst_port;
      dst_port = k.src_port;
      proto = k.protocol;
    }

unfoldable pub from_ct_kv : CtKey → CtEntry → ConntrackEntry
unfolding decode_ip4
from_ct_kv k v = record {
  key = record {
    src_ip = decode_ip4 k.src_ip;
    dst_ip = decode_ip4 k.dst_ip;
    src_port = k.src_port;
    dst_port = k.dst_port;
    protocol = k.proto;
  };
  state = v.state;
  tcp_state = v.tcp_state;
  last_seen_ns = v.last_seen_ns;
  established_ns = v.established_ns;
  packets_fwd = v.packets_fwd;
  bytes_fwd = v.bytes_fwd;
  packets_rev = v.packets_rev;
  bytes_rev = v.bytes_rev;
}

-- ConntrackDump, where the iteration succeeds.
unfoldable pub conntrack_dump : Table → List ConntrackEntry
unfolding from_ct_kv
conntrack_dump [] = []
conntrack_dump ((k, v) ∷ t) = from_ct_kv k v ∷ conntrack_dump t

unfoldable pub find : CtKey → Table → Option CtEntry
find k [] = none
find k ((j, v) ∷ t) = let rest = find k t in if ct_key_eq j k then some v else rest

abbrev entry_of : CtKey → Option CtEntry → Option ConntrackEntry
entry_of k none = none
entry_of k (some v) = some (from_ct_kv k v)

-- ConntrackLookup, where a failing lookup means that the key does not exist.
unfoldable pub conntrack_lookup : Table → ConntrackKey → Option ConntrackEntry
unfolding find canonical_ct_key from_ct_kv
conntrack_lookup t key = entry_of (canonical_ct_key key) (find (canonical_ct_key key) t)

unfoldable pub delete : CtKey → Table → Table
delete k [] = []
delete k ((j, v) ∷ t) = let rest = delete k t in if ct_key_eq j k then rest else (j, v) ∷ rest

-- The timeout that applies to an entry; none where the sweep leaves it alone.
unfoldable pub timeout_of : ℕ → ℕ → ConntrackEntry → Option ℕ
timeout_of udp icmp e =
    if e.key.protocol == proto_udp
    then some udp
    else if e.key.protocol == proto_icmp
    then some icmp
    else if e.key.protocol == proto_tcp
    then (if e.tcp_state == tcp_cs_closed then some udp else none)
    else none

-- `nowNs - e.LastSeenNs > uint64(timeout)` in 64 bits.
abbrev is_older : ℕ → ConntrackEntry → Option ℕ → Bool
is_older now e none = false
is_older now e (some timeout) = ltb timeout ((now + 2 ^ 64 - e.last_seen_ns) % 2 ^ 64)

unfoldable pub expired : ℕ → ℕ → ℕ → ConntrackEntry → Bool
unfolding timeout_of
expired now udp icmp e = is_older now e (timeout_of udp icmp e)

-- The loop of sweepConntrack over a dump; `delete_ok` says which deletions succeed.
unfoldable pub sweep_entries : (CtKey → Bool) → ℕ → ℕ → ℕ → List ConntrackEntry → Table → Table
unfolding expired canonical_ct_key delete
sweep_entries delete_ok now udp icmp [] t = t
sweep_entries delete_ok now udp icmp (e ∷ es) t =
    let key = canonical_ct_key e.key in
    sweep_entries delete_ok now udp icmp es
      (if expired now udp icmp e && delete_ok key then delete key t else t)

unfoldable pub sweep_conntrack : (CtKey → Bool) → ℕ → ℕ → ℕ → Table → Table
unfolding sweep_entries conntrack_dump
sweep_conntrack delete_ok now udp icmp t = sweep_entries delete_ok now udp icmp (conntrack_dump t) t
