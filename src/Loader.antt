-- ===== src/Loader.antt =====
-- The data of agent/internal/loader: rules as the agent compiles them (rules.go, config.go), the
-- entries of the BPF maps (tcfilter_bpfel.go), and the maps themselves (objects.go) as one state.
pub mod Rules
pub mod Ipset
pub mod Settings
pub mod Conntrack
pub mod Counters
pub mod Events
use qf.Common.{
  ℕ, zero, suc, ◌+◌, Bool, true, false, ◌&&◌, Option, none, some, List, [], ◌∷◌, ◌==◌,
  if◌then◌else◌,
}
use qf.Common.Int.{ℤ}

-- Mirrors of the BPF constants.
abbrev pub proto_any : ℕ
proto_any = 1

abbrev pub proto_tcp : ℕ
proto_tcp = 2

abbrev pub proto_udp : ℕ
proto_udp = 3

abbrev pub proto_icmp : ℕ
proto_icmp = 4

abbrev pub proto_icmpv6 : ℕ
proto_icmpv6 = 5

abbrev pub action_allow : ℕ
action_allow = 1

abbrev pub action_deny : ℕ
action_deny = 2

abbrev pub action_log : ℕ
action_log = 3

abbrev pub dir_ingress : ℕ
dir_ingress = 1

abbrev pub dir_egress : ℕ
dir_egress = 2

abbrev pub ct_none : ℕ
ct_none = 1

abbrev pub max_rules_cap : ℕ
max_rules_cap = 2048

abbrev pub ipset_inline_max : ℕ
ipset_inline_max = 8

-- The prefix length is the size of a parsed mask, never negative.
pub record Cidr4 : Type 0 where
  pub ip : List ℕ
  pub ones : ℕ

pub record PortRange : Type 0 where
  pub start : ℕ
  pub end : ℕ

pub record RuleMatch : Type 0 where
  pub protocol : ℕ
  pub direction : ℕ
  pub state : ℕ
  pub src_cidrs : List Cidr4
  pub dst_cidrs : List Cidr4
  pub src_ports : List PortRange
  pub dst_ports : List PortRange
  pub src_ipset_id : ℕ
  pub dst_ipset_id : ℕ

pub record RuleSpec : Type 0 where
  pub id : List ℕ
  pub priority : ℤ
  pub action : ℕ
  pub log_enabled : Bool
  pub log_rate_limit : ℕ
  pub matching : RuleMatch

pub record Config : Type 0 where
  pub conntrack_enabled : Bool
  pub flow_events_enabled : Bool
  pub default_ingress : ℕ
  pub default_egress : ℕ

abbrev pub default_config : Config
default_config = record {
  conntrack_enabled = false;
  flow_events_enabled = false;
  default_ingress = action_allow;
  default_egress = action_allow;
}

-- An address and a mask, as 32-bit map values.
pub record AddrMask : Type 0 where
  pub addr : ℕ
  pub mask : ℕ

-- The match part of an entry; the four arrays have eight slots each.
pub record EntryMatch : Type 0 where
  pub protocol : ℕ
  pub direction : ℕ
  pub n_src_cidrs : ℕ
  pub n_dst_cidrs : ℕ
  pub n_src_ports : ℕ
  pub n_dst_ports : ℕ
  pub state : ℕ
  pub src_cidrs : List AddrMask
  pub dst_cidrs : List AddrMask
  pub src_ports : List PortRange
  pub dst_ports : List PortRange
  pub src_ipset_id : ℕ
  pub dst_ipset_id : ℕ

pub record RuleEntry : Type 0 where
  pub action : ℕ
  pub log_enabled : ℕ
  pub log_rate_limit_per_sec : ℕ
  pub rule_id_hi : ℕ
  pub rule_id_lo : ℕ
  pub matching : EntryMatch

pub record IpsetLpmKey : Type 0 where
  pub prefixlen : ℕ
  pub ipset_id : ℕ
  pub addr : ℕ

-- The maps that the loader writes. `none` is a slot that was never written, and reads as zeroes.
pub record BpfObjects : Type 0 where
  pub qf_rules : ℕ → Option RuleEntry
  pub qf_rule_count : ℕ
  pub qf_config : ℕ → ℕ
  pub qf_ipsets : List IpsetLpmKey
  pub max_rules : ℕ

-- Which of the kernel's map operations succeed.
pub record Kernel : Type 0 where
  pub rule_put_ok : ℕ → Bool
  pub count_put_ok : Bool
  pub config_put_ok : ℕ → Bool
  pub config_lookup_ok : ℕ → Bool
  pub ipset_update_ok : IpsetLpmKey → Bool
  pub ipset_iterate_ok : Bool
  pub ipset_delete_ok : IpsetLpmKey → Bool

pub data EncodeError : Type 0 where
  ipv6_not_supported : EncodeError
  invalid_prefix_length : ℕ → EncodeError

pub data RuleError : Type 0 where
  unknown_action unknown_protocol unknown_direction : ℕ → RuleError
  too_many_src_cidrs too_many_dst_cidrs too_many_src_ports too_many_dst_ports : ℕ → RuleError
  src_port_reversed dst_port_reversed : ℕ → RuleError
  bad_src_cidr bad_dst_cidr : ℕ → EncodeError → RuleError

pub data LoadError : Type 0 where
  too_many_rules : ℕ → ℕ → LoadError
  bad_rule : ℕ → ℤ → RuleError → LoadError
  write_rule : ℕ → LoadError
  write_rule_count : LoadError
  ipset_id_reserved : LoadError
  bad_ipset_cidr : ℕ → ℕ → EncodeError → LoadError
  ipset_update : ℕ → LoadError
  iterate_ipsets delete_ipset : LoadError
  write_config read_config : ℕ → LoadError

-- An array map with one slot written.
abbrev pub put {ℓ} : {A : Type ℓ} → (ℕ → A) → ℕ → A → ℕ → A
put f i v j = if j == i then v else f j
