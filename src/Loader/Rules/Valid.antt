-- ===== src/Loader/Rules/Valid.antt =====
-- Which rules PushRules accepts: validateRule and toRuleEntry against one description.
use qf.Common.{
  ℕ, suc, ◌≤◌, ◌≡◌, ◌↔◌, refl, true, some, List, [], ◌∷◌, length, All, ok, inl, inr, Bool-cases,
  Result-cases, Option-cases, arith, ltb,
}
use qf.Net.{to4, encode_ip4, little_endian, cidr_mask}
use qf.Loader.{
  Cidr4, PortRange, RuleSpec, RuleEntry, RuleError, bad_src_cidr, bad_dst_cidr, src_port_reversed,
  dst_port_reversed, AddrMask, EncodeError,
}
use qf.Loader.Rules.{
  is_action, is_protocol, is_direction, check_ports, validate_rule, encode_cidr4, encode_cidrs,
  to_rule_entry, rule_entry, convert_rules,
}

-- An IPv4 prefix.
abbrev pub IsPrefix4 : Cidr4 → Type 0
IsPrefix4 c = ((ip4 : List ℕ) × (to4 c.ip ≡ some ip4)) × (c.ones ≤ 32)

abbrev pub IsOrderedRange : PortRange → Type 0
IsOrderedRange p = p.start ≤ p.end

-- A rule that the datapath can hold: known constants, lists that fit the arrays of eight, IPv4
-- prefixes and ranges that are in order.
pub record IsWellFormed (r : RuleSpec) : Type 0 where
  pub action_known : is_action r.action ≡ true
  pub protocol_known : is_protocol r.matching.protocol ≡ true
  pub direction_known : is_direction r.matching.direction ≡ true
  pub src_cidrs_fit : length r.matching.src_cidrs ≤ 8
  pub dst_cidrs_fit : length r.matching.dst_cidrs ≤ 8
  pub src_ports_fit : length r.matching.src_ports ≤ 8
  pub dst_ports_fit : length r.matching.dst_ports ≤ 8
  pub src_ports_ordered : All IsOrderedRange r.matching.src_ports
  pub dst_ports_ordered : All IsOrderedRange r.matching.dst_ports
  pub src_cidrs_ipv4 : All IsPrefix4 r.matching.src_cidrs
  pub dst_cidrs_ipv4 : All IsPrefix4 r.matching.dst_cidrs

check_ports_ok :
    (f : ℕ → RuleError) (i : ℕ) (ps : List PortRange)
    → All IsOrderedRange ps
    → check_ports f i ps ≡ ok tt
unfolding check_ports
check_ports_ok f i [] h = refl
check_ports_ok f i (p ∷ ps) h = ground (arith, check_ports_ok f (suc i) ps)

check_ports_sound :
    (f : ℕ → RuleError) (i : ℕ) (ps : List PortRange)
    → check_ports f i ps ≡ ok tt
    → All IsOrderedRange ps
unfolding check_ports
check_ports_sound f i [] h = tt
check_ports_sound f i (p ∷ ps) h = elim (Bool-cases (ltb p.end p.start)) [
  | inl e ↦ let bad = rw e at h in cc
  | inr e ↦ (ground arith, check_ports_sound f (suc i) ps (rw e at h))
]

encode_cidr4_ok : (c : Cidr4) → IsPrefix4 c → (e : AddrMask) × (encode_cidr4 c ≡ ok e)
unfolding encode_cidr4
encode_cidr4_ok c ((ip4, e), le) =
    (record { addr = encode_ip4 c.ip; mask = little_endian (cidr_mask c.ones) }, ground arith)

encode_cidr4_sound : (c : Cidr4) {e : AddrMask} → encode_cidr4 c ≡ ok e → IsPrefix4 c
unfolding encode_cidr4
encode_cidr4_sound c h = elim (Option-cases (to4 c.ip)) [
  | inl p ↦ let bad = rw (p, encode_cidr4) at h in cc
  | inr (ip4, p) ↦ ((ip4, p), ground arith)
]

encode_cidrs_ok :
    (f : ℕ → EncodeError → RuleError) (i : ℕ) (cs : List Cidr4)
    → All IsPrefix4 cs
    → (es : List AddrMask) × (encode_cidrs f i cs ≡ ok es) × (length es ≡ length cs)
unfolding encode_cidrs
encode_cidrs_ok f i [] h = ([], refl, refl)
encode_cidrs_ok f i (c ∷ cs) h =
    let (e, p) = encode_cidr4_ok c h.0 in
    let (es, q, n) = encode_cidrs_ok f (suc i) cs h.1 in (e ∷ es, rw (p, q), omega (arith, n))

encode_cidrs_sound :
    (f : ℕ → EncodeError → RuleError) (i : ℕ) (cs : List Cidr4) {es : List AddrMask}
    → encode_cidrs f i cs ≡ ok es
    → All IsPrefix4 cs
unfolding encode_cidrs
encode_cidrs_sound f i [] h = tt
encode_cidrs_sound f i (c ∷ cs) h = elim (Result-cases (encode_cidr4 c)) [
  | inr (x, p) ↦ let bad = rw p at h in cc
  | inl (e, p) ↦ elim (Result-cases (encode_cidrs f (suc i) cs)) [
    | inr (x, q) ↦ let bad = rw (p, q) at h in cc
    | inl (es, q) ↦ (encode_cidr4_sound c p, encode_cidrs_sound f (suc i) cs q)
  ]
]

validate_rule_ok : (r : RuleSpec) → IsWellFormed r → validate_rule r ≡ ok tt
unfolding validate_rule
validate_rule_ok r w = ground (
  arith,
  check_ports_ok src_port_reversed 0 r.matching.src_ports w.src_ports_ordered,
  check_ports_ok dst_port_reversed 0 r.matching.dst_ports w.dst_ports_ordered,
)

validate_rule_sound :
    (r : RuleSpec)
    → validate_rule r ≡ ok tt
    → All IsPrefix4 r.matching.src_cidrs
    → All IsPrefix4 r.matching.dst_cidrs
    → IsWellFormed r
unfolding validate_rule
validate_rule_sound r h src dst = record {
  action_known = ground arith;
  protocol_known = ground arith;
  direction_known = ground arith;
  src_cidrs_fit = ground arith;
  dst_cidrs_fit = ground arith;
  src_ports_fit = ground arith;
  dst_ports_fit = ground arith;
  src_ports_ordered = check_ports_sound src_port_reversed 0 r.matching.src_ports (ground arith);
  dst_ports_ordered = check_ports_sound dst_port_reversed 0 r.matching.dst_ports (ground arith);
  src_cidrs_ipv4 = src;
  dst_cidrs_ipv4 = dst;
}

-- toRuleEntry accepts exactly the well-formed rules.
pub to_rule_entry_iff :
    (r : RuleSpec) → IsWellFormed r ↔ ((e : RuleEntry) × (to_rule_entry r ≡ ok e))
unfolding to_rule_entry
to_rule_entry_iff r = (accepts, refuses)
  where
    accepts : IsWellFormed r → (e : RuleEntry) × (to_rule_entry r ≡ ok e)
    accepts w =
        let (src, p, _) = encode_cidrs_ok bad_src_cidr 0 r.matching.src_cidrs w.src_cidrs_ipv4 in
        let (dst, q, _) = encode_cidrs_ok bad_dst_cidr 0 r.matching.dst_cidrs w.dst_cidrs_ipv4 in
        (rule_entry r src dst, rw (validate_rule_ok r w, p, q))

    refuses : (e : RuleEntry) × (to_rule_entry r ≡ ok e) → IsWellFormed r
    refuses (e, h) = elim (Result-cases (validate_rule r)) [
      | inr (x, p) ↦ let bad = rw p at h in cc
      | inl (_, p) ↦ elim (Result-cases (encode_cidrs bad_src_cidr 0 r.matching.src_cidrs)) [
        | inr (x, q) ↦ let bad = rw (p, q) at h in cc
        | inl (src, q) ↦ elim (Result-cases (encode_cidrs bad_dst_cidr 0 r.matching.dst_cidrs)) [
          | inr (x, s) ↦ let bad = rw (p, q, s) at h in cc
          | inl (dst, s) ↦
              validate_rule_sound r p (encode_cidrs_sound bad_src_cidr 0 r.matching.src_cidrs q)
                (encode_cidrs_sound bad_dst_cidr 0 r.matching.dst_cidrs s)
        ]
      ]
    ]

-- Well-formed rules convert, each to one entry.
pub convert_rules_ok :
    (i : ℕ) (rs : List RuleSpec)
    → All IsWellFormed rs
    → (es : List RuleEntry) × (convert_rules i rs ≡ ok es) × (length es ≡ length rs)
unfolding convert_rules
convert_rules_ok i [] h = ([], refl, refl)
convert_rules_ok i (r ∷ rs) h =
    let (e, p) = (to_rule_entry_iff r).0 h.0 in
    let (es, q, n) = convert_rules_ok (suc i) rs h.1 in (e ∷ es, rw (p, q), omega (arith, n))
