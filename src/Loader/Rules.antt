-- ===== src/Loader/Rules.antt =====
-- agent/internal/loader/rules.go: validation of a rule, its wire form, and PushRules.
pub mod Valid
pub mod Push
pub mod Success
use qf.Common.{
  ℕ, zero, suc, ◌+◌, ◌*◌, ◌%◌, ◌^◌, Bool, true, false, ◌||◌, not, Option, none, some, List, [], ◌∷◌,
  length, take, drop, fill, Result, ok, err, ◌>>=◌, ◌>>◌, fail_if, map_err, ltb, ◌==◌,
  if◌then◌else◌,
}
use qf.Common.Int.{ℤ, ltb_ℤ}
use qf.Common.Sort.{sort_by}
use qf.Net.{to4, little_endian, encode_ip4, cidr_mask}
use qf.Loader.{
  Cidr4, PortRange, RuleMatch, RuleSpec, AddrMask, EntryMatch, RuleEntry, BpfObjects, Kernel,
  EncodeError, ipv6_not_supported, invalid_prefix_length, RuleError, unknown_action,
  unknown_protocol, unknown_direction, too_many_src_cidrs, too_many_dst_cidrs, too_many_src_ports,
  too_many_dst_ports, src_port_reversed, dst_port_reversed, bad_src_cidr, bad_dst_cidr, LoadError,
  too_many_rules, bad_rule, write_rule, write_rule_count, proto_any, proto_tcp, proto_udp,
  proto_icmp, proto_icmpv6, action_allow, action_deny, action_log, dir_ingress, dir_egress, ct_none,
  ipset_inline_max, put,
}

abbrev pub is_action : ℕ → Bool
is_action a = a == action_allow || (a == action_deny || a == action_log)

abbrev pub is_protocol : ℕ → Bool
is_protocol p =
    p == proto_any || (p == proto_tcp || (p == proto_udp || (p == proto_icmp || p == proto_icmpv6)))

abbrev pub is_direction : ℕ → Bool
is_direction d = d == dir_ingress || d == dir_egress

-- The loops over the port ranges; `i` counts them for the message.
unfoldable pub check_ports : (ℕ → RuleError) → ℕ → List PortRange → Result RuleError (Unit {0})
check_ports at_index i [] = ok tt
check_ports at_index i (p ∷ ps) =
    if ltb p.end p.start then err (at_index i) else check_ports at_index (suc i) ps

unfoldable pub validate_rule : RuleSpec → Result RuleError (Unit {0})
unfolding check_ports
validate_rule r = do
  fail_if (not (is_action r.action)) (unknown_action r.action)
  fail_if (not (is_protocol r.matching.protocol)) (unknown_protocol r.matching.protocol)
  fail_if (not (is_direction r.matching.direction)) (unknown_direction r.matching.direction)
  fail_if (ltb ipset_inline_max (length r.matching.src_cidrs))
      (too_many_src_cidrs (length r.matching.src_cidrs))
  fail_if (ltb ipset_inline_max (length r.matching.dst_cidrs))
      (too_many_dst_cidrs (length r.matching.dst_cidrs))
  fail_if (ltb 8 (length r.matching.src_ports)) (too_many_src_ports (length r.matching.src_ports))
  fail_if (ltb 8 (length r.matching.dst_ports)) (too_many_dst_ports (length r.matching.dst_ports))
  check_ports src_port_reversed 0 r.matching.src_ports
  check_ports dst_port_reversed 0 r.matching.dst_ports

unfoldable pub encode_cidr4 : Cidr4 → Result EncodeError AddrMask
unfolding to4 encode_ip4 cidr_mask
encode_cidr4 c = elim (to4 c.ip) [
  | none ↦ err ipv6_not_supported
  | some _ ↦
      if ltb 32 c.ones
      then err (invalid_prefix_length c.ones)
      else ok (record { addr = encode_ip4 c.ip; mask = little_endian (cidr_mask c.ones) })
]

-- The loops that fill SrcCidrs and DstCidrs.
unfoldable pub encode_cidrs :
    (ℕ → EncodeError → RuleError) → ℕ → List Cidr4 → Result RuleError (List AddrMask)
unfolding encode_cidr4
encode_cidrs at_index i [] = ok []
encode_cidrs at_index i (c ∷ cs) = do
  enc ← map_err (at_index i) (encode_cidr4 c)
  rest ← encode_cidrs at_index (suc i) cs
  ok (enc ∷ rest)

-- binary.BigEndian.Uint64.
abbrev pub big_endian_from : ℕ → List ℕ → ℕ
big_endian_from acc [] = acc
big_endian_from acc (b ∷ bs) = big_endian_from (acc * 256 + b) bs

abbrev pub zero_addr_mask : AddrMask
zero_addr_mask = record { addr = 0; mask = 0 }

abbrev pub zero_port_range : PortRange
zero_port_range = record { start = 0; end = 0 }

-- What toRuleEntry builds once the addresses are encoded.
unfoldable pub rule_entry : RuleSpec → List AddrMask → List AddrMask → RuleEntry
rule_entry r src dst = record {
  action = r.action;
  log_enabled = if r.log_enabled then 1 else 0;
  log_rate_limit_per_sec = r.log_rate_limit;
  rule_id_hi = big_endian_from 0 (take 8 r.id);
  rule_id_lo = big_endian_from 0 (drop 8 r.id);
  matching = record {
    protocol = r.matching.protocol;
    direction = r.matching.direction;
    n_src_cidrs = length r.matching.src_cidrs % 256;
    n_dst_cidrs = length r.matching.dst_cidrs % 256;
    n_src_ports = length r.matching.src_ports % 256;
    n_dst_ports = length r.matching.dst_ports % 256;
    state = if r.matching.state == 0 then ct_none else r.matching.state;
    src_cidrs = fill 8 zero_addr_mask src;
    dst_cidrs = fill 8 zero_addr_mask dst;
    src_ports = fill 8 zero_port_range r.matching.src_ports;
    dst_ports = fill 8 zero_port_range r.matching.dst_ports;
    src_ipset_id = r.matching.src_ipset_id;
    dst_ipset_id = r.matching.dst_ipset_id;
  };
}

unfoldable pub to_rule_entry : RuleSpec → Result RuleError RuleEntry
unfolding validate_rule encode_cidrs rule_entry
to_rule_entry r = do
  validate_rule r
  src ← encode_cidrs bad_src_cidr 0 r.matching.src_cidrs
  dst ← encode_cidrs bad_dst_cidr 0 r.matching.dst_cidrs
  ok (rule_entry r src dst)

abbrev pub by_priority : RuleSpec → RuleSpec → Bool
by_priority a b = ltb_ℤ a.priority b.priority

-- All rules are converted before any map entry is written.
unfoldable pub convert_rules : ℕ → List RuleSpec → Result LoadError (List RuleEntry)
unfolding to_rule_entry
convert_rules i [] = ok []
convert_rules i (r ∷ rs) = do
  e ← map_err (bad_rule i r.priority) (to_rule_entry r)
  es ← convert_rules (suc i) rs
  ok (e ∷ es)

module _ (k : Kernel) where
  unfoldable pub write_rules :
      ℕ → List RuleEntry → BpfObjects → BpfObjects × Result LoadError (Unit {0})
  write_rules i [] m = (m, ok tt)
  write_rules i (e ∷ es) m =
      if k.rule_put_ok i
      then write_rules (suc i) es (record m { qf_rules = put m.qf_rules i (some e) })
      else (m, err (write_rule i))

  -- The new count is published last.
  unfoldable pub publish_rules :
      List RuleEntry → BpfObjects → BpfObjects × Result LoadError (Unit {0})
  unfolding write_rules
  publish_rules entries m =
      let (m', written) = write_rules 0 entries m in
      elim written [
        | err e ↦ (m', err e)
        | ok _ ↦
            if k.count_put_ok
            then (record m' { qf_rule_count = length entries % 2 ^ 32 }, ok tt)
            else (m', err write_rule_count)
      ]

  unfoldable pub push_rules : BpfObjects → List RuleSpec → BpfObjects × Result LoadError (Unit {0})
  unfolding sort_by convert_rules publish_rules
  push_rules m rules =
      if ltb m.max_rules (length rules)
      then (m, err (too_many_rules (length rules) m.max_rules))
      else elim (convert_rules 0 (sort_by by_priority rules)) [
        | err e ↦ (m, err e)
        | ok entries ↦ publish_rules entries m
      ]
