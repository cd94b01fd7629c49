-- ===== src/Loader/Conntrack/Keys.antt =====
-- One key for both directions of a flow.
use qf.Common.{◌≤◌, ◌<◌, ◌^◌, ◌≡◌, ◌≢◌, arith}
use qf.Net.{encode_ip4}
use qf.Net.Laws.{encode_ip4-decode_ip4}
use qf.Loader.Conntrack.{ConntrackKey, CtKey, CtEntry, canonical_ct_key, from_ct_kv}

-- The key of a packet of the opposite direction.
abbrev pub reversed : ConntrackKey → ConntrackKey
reversed k = record {
  src_ip = k.dst_ip;
  dst_ip = k.src_ip;
  src_port = k.dst_port;
  dst_port = k.src_port;
  protocol = k.protocol;
}

-- Both directions of a flow between two addresses have one key.
pub canonical_ct_key-reversed :
    (k : ConntrackKey)
    → encode_ip4 k.src_ip ≢ encode_ip4 k.dst_ip
    → canonical_ct_key (reversed k) ≡ canonical_ct_key k
unfolding canonical_ct_key
canonical_ct_key-reversed k h = ground arith

-- A table key with the lower address first.
pub record IsCanonical (k : CtKey) : Type 0 where
  pub ordered : k.src_ip ≤ k.dst_ip
  pub in_range : k.dst_ip < 2 ^ 32

-- The key that a dumped entry is deleted by is the key that it stands under.
pub canonical_ct_key-from_ct_kv :
    (k : CtKey) (v : CtEntry) → IsCanonical k → canonical_ct_key (from_ct_kv k v).key ≡ k
unfolding canonical_ct_key from_ct_kv
canonical_ct_key-from_ct_kv k v c =
    let s = encode_ip4-decode_ip4 k.src_ip (omega (arith, c.ordered, c.in_range)) in
    let d = encode_ip4-decode_ip4 k.dst_ip c.in_range in rw (s, d) (ground (arith, c.ordered))
