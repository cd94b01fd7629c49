-- ===== src/Proto.antt =====
-- The messages of proto/qf/v1 that carry a policy from the control plane to the agent.
-- An enum is an int32 on the wire that may hold any value; it is kept as the number of its 32 bits.
use qf.Common.{ℕ, Bool, Option, List, Text}
use qf.Common.Int.{ℤ}

pub record Cidr : Type 0 where
  pub ip : List ℕ
  pub prefix_len : ℕ

pub record PortRange : Type 0 where
  pub start : ℕ
  pub end : ℕ

-- A message field that is absent reads as its zero value.
pub record RuleMatch : Type 0 where
  pub protocol : ℕ
  pub src_cidrs : List Cidr
  pub dst_cidrs : List Cidr
  pub src_ports : List PortRange
  pub dst_ports : List PortRange
  pub tcp_flags_match : ℕ
  pub tcp_flags_mask : ℕ

pub record EffectiveRule : Type 0 where
  pub rule_id : Text
  pub policy_id : Text
  pub rule_name : Text
  pub policy_name : Text
  pub policy_priority : ℤ
  pub rule_priority : ℤ
  pub direction : ℕ
  pub matching : RuleMatch
  pub state : ℕ
  pub action : ℕ
  pub log_enabled : Bool
  pub log_rate_limit_per_sec : ℕ

-- `none` in the rules is a nil message.
pub record PolicyBundle : Type 0 where
  pub generation : ℤ
  pub rules : List (Option EffectiveRule)
  pub default_ingress_action : ℕ
  pub default_egress_action : ℕ
  pub requires_conntrack : Bool
