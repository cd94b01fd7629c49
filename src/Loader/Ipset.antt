-- ===== src/Loader/Ipset.antt =====
-- agent/internal/loader/ipset.go: PushIPSet and ClearIPSets.
pub mod Clear
pub mod Fill
use qf.Common.{
  ℕ, suc, ◌+◌, ◌%◌, ◌^◌, Bool, true, false, ◌&&◌, Option, none, some, List, [], ◌∷◌, ◌++◌, Result,
  ok, err, ltb, ◌==◌, if◌then◌else◌,
}
use qf.Net.{to4, encode_ip4}
use qf.Loader.{
  Cidr4, BpfObjects, Kernel, IpsetLpmKey, ipv6_not_supported, invalid_prefix_length, LoadError,
  ipset_id_reserved, bad_ipset_cidr, ipset_update, iterate_ipsets, delete_ipset,
}

abbrev pub key_eq : IpsetLpmKey → IpsetLpmKey → Bool
key_eq a b = a.prefixlen == b.prefixlen && (a.ipset_id == b.ipset_id && a.addr == b.addr)

-- The trie as a list of its keys, each once.
unfoldable pub update_key : IpsetLpmKey → List IpsetLpmKey → List IpsetLpmKey
update_key k [] = k ∷ []
update_key k (j ∷ js) = let rest = update_key k js in if key_eq j k then j ∷ js else j ∷ rest

unfoldable pub delete_key : IpsetLpmKey → List IpsetLpmKey → List IpsetLpmKey
delete_key k [] = []
delete_key k (j ∷ js) = let rest = delete_key k js in if key_eq j k then js else j ∷ rest

abbrev pub lpm_key : ℕ → Cidr4 → IpsetLpmKey
lpm_key id c = record { prefixlen = (32 + c.ones) % 2 ^ 32; ipset_id = id; addr = encode_ip4 c.ip }

module _ (k : Kernel) where
  -- The loop of PushIPSet from entry `i` on.
  unfoldable pub push_entries :
      ℕ → ℕ → List Cidr4 → BpfObjects → BpfObjects × Result LoadError (Unit {0})
  unfolding to4 encode_ip4 update_key
  push_entries id i [] m = (m, ok tt)
  push_entries id i (c ∷ cs) m =
      let rest =
        push_entries id (suc i) cs
          (record m { qf_ipsets = update_key (lpm_key id c) m.qf_ipsets }) in
      elim (to4 c.ip) [
        | none ↦ (m, err (bad_ipset_cidr id i ipv6_not_supported))
        | some _ ↦
            if ltb 32 c.ones
            then (m, err (bad_ipset_cidr id i (invalid_prefix_length c.ones)))
            else if k.ipset_update_ok (lpm_key id c)
            then rest
            else (m, err (ipset_update id))
      ]

  unfoldable pub push_ipset : ℕ → List Cidr4 → BpfObjects → BpfObjects × Result LoadError (Unit {0})
  unfolding push_entries
  push_ipset id cidrs m = if id == 0 then (m, err ipset_id_reserved) else push_entries id 0 cidrs m

  -- The deletion loop of ClearIPSets over the keys that the iteration collected.
  unfoldable pub delete_keys :
      List IpsetLpmKey → BpfObjects → BpfObjects × Result LoadError (Unit {0})
  unfolding delete_key
  delete_keys [] m = (m, ok tt)
  delete_keys (key ∷ keys) m =
      if k.ipset_delete_ok key
      then delete_keys keys (record m { qf_ipsets = delete_key key m.qf_ipsets })
      else (m, err delete_ipset)

  unfoldable pub clear_ipsets : BpfObjects → BpfObjects × Result LoadError (Unit {0})
  unfolding delete_keys
  clear_ipsets m = if k.ipset_iterate_ok then delete_keys m.qf_ipsets m else (m, err iterate_ipsets)
