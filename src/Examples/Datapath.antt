-- ===== src/Examples/Datapath.antt =====
-- The loader's theorems (agent/internal/loader) at concrete maps, rules and flows.
use qf.Common.{◌≡◌, ◌↔◌, refl, true, none, some, List, [], ◌∷◌, ok, arith, if◌then◌else◌}
use qf.Common.Int.{pos}
use qf.Common.Sort.{sort_by}
use qf.Loader.{Cidr4, RuleSpec, RuleEntry, BpfObjects, Kernel, IpsetLpmKey}
use qf.Loader.Rules.{to_rule_entry, convert_rules, push_rules, by_priority}
use qf.Loader.Rules.Valid.{IsWellFormed, to_rule_entry_iff}
use qf.Loader.Rules.Push.{IsPublished, push_rules-IsPublished}
use qf.Loader.Rules.Success.{push_rules_ok}
use qf.Loader.Ipset.{clear_ipsets}
use qf.Loader.Conntrack.{CtKey, CtEntry, find, sweep_conntrack}
use qf.Loader.Conntrack.Sweep.{is_doomed, find-sweep_conntrack}
use qf.Loader.Counters.{RuleCounters, CounterMap, read_counters}
use qf.Net.{to4}

abbrev kernel : Kernel
kernel = record {
  rule_put_ok = λ i. true;
  count_put_ok = true;
  config_put_ok = λ i. true;
  config_lookup_ok = λ i. true;
  ipset_update_ok = λ key. true;
  ipset_iterate_ok = true;
  ipset_delete_ok = λ key. true;
}

abbrev office : Cidr4
office = record { ip = 10 ∷ 1 ∷ 0 ∷ 0 ∷ []; ones = 16 }

abbrev old_key : IpsetLpmKey
old_key = record { prefixlen = 40; ipset_id = 7; addr = 10 }

abbrev maps : BpfObjects
maps = record {
  qf_rules = λ i. none;
  qf_rule_count = 0;
  qf_config = λ i. 0;
  qf_ipsets = old_key ∷ [];
  max_rules = 2048;
}

abbrev web : RuleSpec
web = record {
  id = 0 ∷ 1 ∷ 2 ∷ 3 ∷ 4 ∷ 5 ∷ 6 ∷ 7 ∷ 8 ∷ 9 ∷ 10 ∷ 11 ∷ 12 ∷ 13 ∷ 14 ∷ 15 ∷ [];
  priority = pos 20;
  action = 1;
  log_enabled = true;
  log_rate_limit = 5;
  matching = record {
    protocol = 2;
    direction = 1;
    state = 1;
    src_cidrs = office ∷ [];
    dst_cidrs = [];
    src_ports = [];
    dst_ports = record { start = 443; end = 443 } ∷ [];
    src_ipset_id = 0;
    dst_ipset_id = 0;
  };
}

abbrev no_ssh : RuleSpec
no_ssh = record web {
  priority = pos 10;
  action = 2;
  matching = record web.matching { dst_ports = record { start = 22; end = 22 } ∷ [] };
}

to_rule_entry_iff_example : IsWellFormed web ↔ ((e : RuleEntry) × (to_rule_entry web ≡ ok e))
to_rule_entry_iff_example = to_rule_entry_iff web

two_rules_pushed : (push_rules kernel maps (web ∷ no_ssh ∷ [])).1 ≡ ok tt
unfolding push_rules
two_rules_pushed = refl

push_rules-IsPublished_example :
    (entries : List RuleEntry) × (convert_rules 0 (sort_by by_priority (web ∷ no_ssh ∷ []))
      ≡ ok entries)
    × IsPublished maps (push_rules kernel maps (web ∷ no_ssh ∷ [])).0 entries
push_rules-IsPublished_example =
    push_rules-IsPublished kernel maps (web ∷ no_ssh ∷ []) two_rules_pushed

sets_cleared : (clear_ipsets kernel maps).1 ≡ ok tt
unfolding clear_ipsets
sets_cleared = refl

abbrev dns : CtKey
dns = record { src_ip = 1; dst_ip = 2; src_port = 53; dst_port = 5353; proto = 3 }

abbrev seen_at_five : CtEntry
seen_at_five = record {
  last_seen_ns = 5;
  established_ns = 1;
  packets_fwd = 1;
  bytes_fwd = 60;
  packets_rev = 1;
  bytes_rev = 120;
  state = 2;
  tcp_state = 0;
}

find-sweep_conntrack_example :
    find dns (sweep_conntrack (λ key. true) 100 30 10 ((dns, seen_at_five) ∷ [])) ≡ (
      if is_doomed (λ key. true) 100 30 10 dns ((dns, seen_at_five) ∷ [])
      then none
      else find dns ((dns, seen_at_five) ∷ []))
find-sweep_conntrack_example =
    find-sweep_conntrack (λ key. true) 100 30 10 dns ((dns, seen_at_five) ∷ [])
      (record { ordered = omega arith; in_range = omega arith }, tt)

abbrev two_cpus : List RuleCounters
two_cpus = record { packets = 3; bytes = 180 } ∷ record { packets = 4; bytes = 240 } ∷ []

abbrev counter_map : CounterMap
counter_map i = some two_cpus

abbrev totals : RuleCounters
totals = record { packets = 7; bytes = 420 }

three_read : read_counters counter_map (some 3) ≡ some (totals ∷ totals ∷ totals ∷ [])
unfolding read_counters
three_read = refl

web-IsWellFormed : IsWellFormed web
unfolding to4
web-IsWellFormed = record {
  action_known = refl;
  protocol_known = refl;
  direction_known = refl;
  src_cidrs_fit = omega arith;
  dst_cidrs_fit = omega arith;
  src_ports_fit = omega arith;
  dst_ports_fit = omega arith;
  src_ports_ordered = tt;
  dst_ports_ordered = (omega arith, tt);
  src_cidrs_ipv4 = (((_, refl), omega arith), tt);
  dst_cidrs_ipv4 = tt;
}

push_rules_ok_example : (push_rules kernel maps (web ∷ [])).1 ≡ ok tt
push_rules_ok_example =
    push_rules_ok kernel (λ i. refl) refl maps (web ∷ []) (omega arith) (web-IsWellFormed, tt)
