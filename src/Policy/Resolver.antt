-- ===== src/Policy/Resolver.antt =====
-- cp/internal/policy/resolver.go: object groups become prefixes and port ranges.
pub mod Ports
use qf.Common.{
  ℕ, ◌+◌, ◌-◌, ◌*◌, Bool, true, false, ◌&&◌, Option, none, some, List, [], ◌∷◌, Text, codes,
  text_eq, Result, ok, err, ◌>>=◌, ◌>>◌, fail_if, ltb, leb, ◌==◌, if◌then◌else◌, length,
}
use qf.Net.{to4}
use qf.Uuid.{pg_uuid_to_str}
use qf.Proto.{Cidr, PortRange}
use qf.Policy.{
  Selector, Host, ObjectGroup, Labels, Codec, Queries, PolicyError, or_err, invalid_tenant_id,
  invalid_og_id, get_object_group, bad_spec, bad_cidr, bad_port, unknown_group_type,
}
use qf.Policy.Matching.{lookup, parse_labels, resolve_hosts}

pub record ResolvedGroup : Type 0 where
  pub id : Text
  pub type : Text
  pub cidrs : List Cidr
  pub ports : List PortRange

-- strconv.ParseUint(s, 10, 32): decimal digits, at least one, and a value of 32 bits.
unfoldable pub parse_digits : ℕ → Text → Option ℕ
parse_digits acc [] = some acc
parse_digits acc (c ∷ cs) =
    let rest = parse_digits (acc * 10 + (c - b'0')) cs in
    if leb b'0' c && leb c b'9' then rest else none

abbrev in_32_bits : Option ℕ → Option ℕ
in_32_bits none = none
in_32_bits (some n) = if ltb 4294967295 n then none else some n

unfoldable pub parse_uint : Text → Option ℕ
unfolding parse_digits
parse_uint s = if length s == 0 then none else in_32_bits (parse_digits 0 s)

-- The parts before and after the first '-', where there is one.
abbrev put_first : ℕ → Option (Text × Text) → Option (Text × Text)
put_first c none = none
put_first c (some (a, b)) = some (c ∷ a, b)

unfoldable pub split_dash : Text → Option (Text × Text)
split_dash [] = none
split_dash (c ∷ cs) =
    let rest = split_dash cs in if c == b'-' then some ([], cs) else put_first c rest

unfoldable pub parse_port_range : Text → Result PolicyError PortRange
unfolding split_dash parse_uint
parse_port_range s = elim (split_dash s) [
  | none ↦ do p ← or_err (bad_port s) (parse_uint s); ok (record { start = p; end = p })
  | some (a, b) ↦ do
    lo ← or_err (bad_port s) (parse_uint a)
    hi ← or_err (bad_port s) (parse_uint b)
    fail_if (ltb hi lo) (bad_port s)
    ok (record { start = lo; end = hi })
]

unfoldable pub parse_port_list : List Text → Result PolicyError (List PortRange)
unfolding parse_port_range
parse_port_list [] = ok []
parse_port_list (s ∷ ss) = do p ← parse_port_range s; rest ← parse_port_list ss; ok (p ∷ rest)

-- ip.To4() where there is one, and the sixteen bytes otherwise.
abbrev pub cidr_of : List ℕ → ℕ → Option (List ℕ) → Cidr
cidr_of ip ones none = record { ip = ip; prefix_len = ones }
cidr_of ip ones (some ip4) = record { ip = ip4; prefix_len = ones }

abbrev pub host_cidr : List ℕ → Option (List ℕ) → Cidr
host_cidr ip none = record { ip = ip; prefix_len = 128 }
host_cidr ip (some ip4) = record { ip = ip4; prefix_len = 32 }

module _ (codec : Codec) where
  unfoldable pub parse_cidr : Text → Result PolicyError Cidr
  unfolding to4
  parse_cidr s = do
    (ip, ones) ← or_err (bad_cidr s) (codec.parse_cidr s)
    ok (cidr_of ip ones (to4 ip))

  unfoldable pub parse_cidr_list : List Text → Result PolicyError (List Cidr)
  unfolding parse_cidr
  parse_cidr_list [] = ok []
  parse_cidr_list (s ∷ ss) = do c ← parse_cidr s; rest ← parse_cidr_list ss; ok (c ∷ rest)

  abbrev group : ObjectGroup → Text → List Cidr → List PortRange → ResolvedGroup
  group og type cidrs ports = record {
    id = pg_uuid_to_str og.id;
    type = type;
    cidrs = cidrs;
    ports = ports;
  }

  unfoldable pub resolve_ipset : ObjectGroup → Result PolicyError ResolvedGroup
  unfolding parse_cidr_list
  resolve_ipset og = do
    texts ← or_err bad_spec (codec.ipset_spec og.spec)
    cidrs ← parse_cidr_list texts
    ok (group og (codes "ipset") cidrs [])

  unfoldable pub resolve_portset : ObjectGroup → Result PolicyError ResolvedGroup
  unfolding parse_port_list
  resolve_portset og = do
    texts ← or_err bad_spec (codec.portset_spec og.spec)
    ports ← parse_port_list texts
    ok (group og (codes "portset") [] ports)

  -- The address of a host: its label "ip", where it is a well-formed address.
  abbrev ip_label : Option Labels → Option Text
  ip_label none = none
  ip_label (some labels) = lookup (codes "ip") labels

  abbrev host_address : Option Text → Option (List ℕ)
  host_address none = none
  host_address (some s) = if length s == 0 then none else codec.parse_ip s

  abbrev add_host : Option (List ℕ) → List Cidr → List Cidr
  add_host none cidrs = cidrs
  add_host (some ip) cidrs = host_cidr ip (to4 ip) ∷ cidrs

  unfoldable pub host_cidrs : List Host → List Cidr
  unfolding to4 lookup parse_labels
  host_cidrs [] = []
  host_cidrs (h ∷ hs) =
      add_host (host_address (ip_label (parse_labels codec h.labels))) (host_cidrs hs)

  unfoldable pub resolve_hostset : Queries → Text → ObjectGroup → Result PolicyError ResolvedGroup
  unfolding host_cidrs
  resolve_hostset q tenant_id og = do
    sel ← or_err bad_spec (codec.hostset_spec og.spec)
    hosts ← resolve_hosts codec q tenant_id sel
    ok (group og (codes "hostset") (host_cidrs hosts) [])

  unfoldable pub resolve : Queries → Text → Text → Result PolicyError ResolvedGroup
  unfolding resolve_ipset resolve_portset resolve_hostset
  resolve q tenant_id og_id = do
    tenant ← or_err invalid_tenant_id (codec.scan_uuid tenant_id)
    id ← or_err invalid_og_id (codec.scan_uuid og_id)
    og ← or_err get_object_group (q.object_group id tenant)
    if text_eq og.type (codes "ipset")
        then resolve_ipset og
        else if text_eq og.type (codes "portset")
        then resolve_portset og
        else if text_eq og.type (codes "hostset")
        then resolve_hostset q tenant_id og
        else err (unknown_group_type og.type)
