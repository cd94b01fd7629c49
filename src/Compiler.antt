-- ===== src/Compiler.antt =====
-- agent/internal/policy/compiler.go: a policy bundle becomes rules for the datapath. The counter
-- and the map of spilled IPSets (compileState) are passed from rule to rule.
pub mod Spill
pub mod Rule
pub mod Order
use qf.Common.{
  ℕ, zero, suc, ◌+◌, ◌%◌, Bool, true, false, ◌||◌, Option, none, some, List, [], ◌∷◌, ◌++◌, Text,
  length, Result, ok, err, ◌>>=◌, ◌>>◌, fail_if, map_err, ltb, ◌==◌, if◌then◌else◌,
}
use qf.Common.Int.{ℤ, pos}
use qf.Net.{to4, parse_prefix}
use qf.Uuid.{parse_uuid}
use qf.Proto
use qf.Proto.{PolicyBundle, EffectiveRule, Cidr}
use qf.Loader.{
  Cidr4, PortRange, RuleMatch, RuleSpec, Config, default_config, ipset_inline_max, proto_any,
  ct_none,
}

pub record CompileState : Type 0 where
  pub next_id : ℕ
  pub ipsets : List (ℕ × List Cidr4)

-- A warning: which list of CIDRs has nothing to enforce, and its length.
pub data Warning : Type 0 where
  src_all_ipv6 dst_all_ipv6 : ℕ → Warning

pub data PortError : Type 0 where
  too_many_ranges : ℕ → PortError
  out_of_range reversed : ℕ → ℕ → PortError

pub data CompileError : Type 0 where
  nil_bundle : CompileError
  nil_rule action_unspecified direction_unspecified bad_rule_id : CompileError
  src_ports_error dst_ports_error : PortError → CompileError
  -- the error of the rule at an index
  in_rule : ℕ → CompileError → CompileError

pub record CompileResult : Type 0 where
  pub rules : List RuleSpec
  pub config : Config
  pub ipsets : List (ℕ × List Cidr4)
  pub warnings : List (ℕ × Warning)

-- A fresh id is never 0 while fewer than 2^32 - 1 sets were allocated.
unfoldable pub alloc_ipset : List Cidr4 → CompileState → CompileState × ℕ
alloc_ipset cidrs s =
    let id = (s.next_id + 1) % 4294967296 in
    (record { next_id = id; ipsets = s.ipsets ++ (id, cidrs) ∷ [] }, id)

-- The loop of compileCIDRs: IPv6 and malformed prefixes are left out.
unfoldable pub ipv4_cidrs : List Cidr → List Cidr4
unfolding to4 parse_prefix
ipv4_cidrs [] = []
ipv4_cidrs (c ∷ cs) =
    let rest = ipv4_cidrs cs in
    elim (to4 c.ip) [
      | none ↦ rest
      | some ip4 ↦ elim (parse_prefix ip4 c.prefix_len) [
        | none ↦ rest
        | some (net, ones) ↦ record { ip = net; ones = ones } ∷ rest
      ]
    ]

-- What compileCIDRs returns: inline prefixes, the id of a spilled set (0 for none), or a warning.
pub data Compiled : Type 0 where
  matched : List Cidr4 → ℕ → Compiled
  skipped : Warning → Compiled

unfoldable pub compile_cidrs : (ℕ → Warning) → List Cidr → CompileState → CompileState × Compiled
unfolding ipv4_cidrs alloc_ipset
compile_cidrs warning cidrs s =
    let out = ipv4_cidrs cidrs in
    let (s', id) = alloc_ipset out s in
    if length cidrs == 0
    then (s, matched [] 0)
    else if length out == 0
    then (s, skipped (warning (length cidrs)))
    else if ltb ipset_inline_max (length out)
    then (s', matched [] id)
    else (s, matched out 0)

-- The loop of compilePorts.
unfoldable pub port_ranges : List Proto.PortRange → Result PortError (List PortRange)
port_ranges [] = ok []
port_ranges (p ∷ ps) = do
  fail_if (ltb 65535 p.start || ltb 65535 p.end) (out_of_range p.start p.end)
  fail_if (ltb p.end p.start) (reversed p.start p.end)
  rest ← port_ranges ps
  ok (record { start = p.start; end = p.end } ∷ rest)

unfoldable pub compile_ports : List Proto.PortRange → Result PortError (List PortRange)
unfolding port_ranges
compile_ports ports = do
  fail_if (ltb 8 (length ports)) (too_many_ranges (length ports))
  port_ranges ports

-- uint8 of an enum, 0 replaced by a default.
abbrev pub u8_or : ℕ → ℕ → ℕ
u8_or v d = if v % 256 == 0 then d else v % 256

pub data Outcome : Type 0 where
  compiled : RuleSpec → Outcome
  skipped_rule : Warning → Outcome

abbrev ok_or : Option (List ℕ) → CompileError → Result CompileError (List ℕ)
ok_or none e = err e
ok_or (some id) e = ok id

-- The end of compileRule, once both address lists are known.
unfoldable pub finish_rule :
    EffectiveRule → ℕ → List ℕ → List Cidr4 → ℕ → List Cidr4 → ℕ → Result CompileError RuleSpec
unfolding compile_ports
finish_rule er priority id src src_id dst dst_id = do
  src_ports ← map_err src_ports_error (compile_ports er.matching.src_ports)
  dst_ports ← map_err dst_ports_error (compile_ports er.matching.dst_ports)
  ok (record {
    id = id;
    priority = pos priority;
    action = er.action % 256;
    log_enabled = er.log_enabled;
    log_rate_limit = er.log_rate_limit_per_sec % 65536;
    matching = record {
      protocol = u8_or er.matching.protocol proto_any;
      direction = er.direction % 256;
      state = u8_or er.state ct_none;
      src_cidrs = src;
      dst_cidrs = dst;
      src_ports = src_ports;
      dst_ports = dst_ports;
      src_ipset_id = src_id;
      dst_ipset_id = dst_id;
    };
  })

-- compileRule after its guards: a side with a warning skips the rule, and keeps the sets that the
-- other side has spilled.
unfoldable pub compile_sides :
    EffectiveRule → ℕ → List ℕ → CompileState → Result CompileError (CompileState × Outcome)
unfolding compile_cidrs finish_rule
compile_sides er priority id s =
    let (s₁, src) = compile_cidrs src_all_ipv6 er.matching.src_cidrs s in
    elim src [
      | skipped w ↦ ok (s₁, skipped_rule w)
      | matched src_cidrs src_id ↦
          let (s₂, dst) = compile_cidrs dst_all_ipv6 er.matching.dst_cidrs s₁ in
          elim dst [
            | skipped w ↦ ok (s₂, skipped_rule w)
            | matched dst_cidrs dst_id ↦ do
              spec ← finish_rule er priority id src_cidrs src_id dst_cidrs dst_id
              ok (s₂, compiled spec)
          ]
    ]

unfoldable pub compile_rule :
    Option EffectiveRule → ℕ → CompileState → Result CompileError (CompileState × Outcome)
unfolding compile_sides parse_uuid
compile_rule none priority s = err nil_rule
compile_rule (some er) priority s = do
  fail_if (er.action % 256 == 0) action_unspecified
  fail_if (er.direction % 256 == 0) direction_unspecified
  id ← ok_or (parse_uuid er.rule_id) bad_rule_id
  compile_sides er priority id s

-- What the loop of CompileBundle has collected: the rules and the warnings, in order.
pub record Collected : Type 0 where
  pub state : CompileState
  pub rules : List RuleSpec
  pub warnings : List (ℕ × Warning)

-- The loop from the rule at index `i` on; the state goes forward, the lists are put in front of
-- what the later rules give.
abbrev collect : ℕ → Outcome → Collected → Collected
collect i (compiled spec) c = record c { rules = spec ∷ c.rules }
collect i (skipped_rule w) c = record c { warnings = (i, w) ∷ c.warnings }

unfoldable pub compile_rules :
    ℕ → List (Option EffectiveRule) → CompileState → Result CompileError Collected
unfolding compile_rule
compile_rules i [] s = ok (record { state = s; rules = []; warnings = [] })
compile_rules i (er ∷ ers) s = do
  (s', outcome) ← map_err (in_rule i) (compile_rule er i s)
  rest ← compile_rules (suc i) ers s'
  ok (collect i outcome rest)

abbrev pub no_ipsets : CompileState
no_ipsets = record { next_id = 0; ipsets = [] }

-- A default action of 0 (unspecified) leaves the agent's default in place.
abbrev pub bundle_config : PolicyBundle → Config
bundle_config b = record default_config {
  conntrack_enabled = b.requires_conntrack;
  default_ingress =
      if b.default_ingress_action == 0
      then default_config.default_ingress
      else b.default_ingress_action % 256;
  default_egress =
      if b.default_egress_action == 0
      then default_config.default_egress
      else b.default_egress_action % 256;
}

unfoldable pub compile_bundle : Option PolicyBundle → Result CompileError CompileResult
unfolding compile_rules
compile_bundle none = err nil_bundle
compile_bundle (some b) = do
  c ← compile_rules 0 b.rules no_ipsets
  ok (record {
    rules = c.rules;
    config = bundle_config b;
    ipsets = c.state.ipsets;
    warnings = c.warnings;
  })
