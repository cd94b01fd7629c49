-- ===== src/Compiler/Rule.antt =====
-- compileRule: what a compiled rule has to do with the rule of the bundle.
use qf.Common.{
  ℕ, ◌+◌, ◌%◌, ◌≤◌, ◌<◌, ◌≡◌, ◌⊎◌, refl, ◌||◌, some, List, [], ◌∷◌, map, length, All, ok, inl, inr,
  ap, pos_of_test, ok_injective, Bool-cases, Result-cases, Option-cases, arith, ltb, ◌==◌,
}
use qf.Common.Int.{pos}
use mathlib.Core.Path.{subst}
use qf.Uuid.{parse_uuid}
use qf.Proto
use qf.Proto.{EffectiveRule, Cidr}
use qf.Loader.{Cidr4, PortRange, RuleSpec, proto_any, ct_none}
use qf.Loader.Rules.Valid.{IsOrderedRange}
use qf.Compiler.{
  CompileState, Warning, src_all_ipv6, dst_all_ipv6, Compiled, matched, skipped, Outcome, compiled,
  skipped_rule, u8_or, ipv4_cidrs, port_ranges, compile_ports, compile_cidrs, finish_rule,
  compile_sides, compile_rule,
}
use qf.Compiler.Spill.{IsBound, IsExtended, IsSide, compile_cidrs-IsExtended, compile_cidrs-IsSide}

abbrev pub port_range : Proto.PortRange → PortRange
port_range p = record { start = p.start; end = p.end }

-- The ranges of the bundle, at most eight, of 16-bit ports and in order.
pub record ArePorts (ps : List Proto.PortRange) (out : List PortRange) : Type 0 where
  pub same : out ≡ map port_range ps
  pub few : length ps ≤ 8
  pub ordered : All IsOrderedRange out
  pub in_range : All (λ (p : PortRange). p.end ≤ 65535) out

abbrev Ranges : List Proto.PortRange → List PortRange → Type 0
Ranges ps out =
    (out ≡ map port_range ps) × All IsOrderedRange out × All (λ (p : PortRange). p.end ≤ 65535) out

port_ranges_ok :
    (ps : List Proto.PortRange) {out : List PortRange} → port_ranges ps ≡ ok out → Ranges ps out
unfolding port_ranges
port_ranges_ok [] {out} h = subst (Ranges []) (ok_injective h) (refl, tt, tt)
port_ranges_ok (p ∷ ps) {out} h = elim (Bool-cases (ltb 65535 p.start || ltb 65535 p.end)) [
  | inl a ↦ let bad = rw a at h in cc
  | inr a ↦ elim (Bool-cases (ltb p.end p.start)) [
    | inl b ↦ let bad = rw (a, b) at h in cc
    | inr b ↦ elim (Result-cases (port_ranges ps)) [
      | inr (x, q) ↦ let bad = rw (a, b, q) at h in cc
      | inl (rest, q) ↦
          let (n, o, r) = port_ranges_ok ps q in
          subst (Ranges (p ∷ ps)) (ok_injective (rw (a, b, q) at h))
            (ap (◌∷◌ (port_range p)) n, (ground arith, o), (ground arith, r))
    ]
  ]
]

compile_ports-ArePorts :
    (ps : List Proto.PortRange) (out : List PortRange) → compile_ports ps ≡ ok out → ArePorts ps out
unfolding compile_ports
compile_ports-ArePorts ps out h = elim (Bool-cases (ltb 8 (length ps))) [
  | inl p ↦ let bad = rw p at h in cc
  | inr p ↦
      let (n, o, r) = port_ranges_ok ps (rw p at h) in
      record { same = n; few = ground arith; ordered = o; in_range = r }
]

-- A compiled rule against the rule of the bundle that it comes from; `sets` are the IPSets.
pub record IsRuleOf (er : EffectiveRule) (sets : List (ℕ × List Cidr4)) (spec : RuleSpec)
    : Type 0 where
  pub id : parse_uuid er.rule_id ≡ some spec.id
  pub action : (spec.action ≡ er.action % 256) × (0 < spec.action)
  pub direction : (spec.matching.direction ≡ er.direction % 256) × (0 < spec.matching.direction)
  pub protocol : spec.matching.protocol ≡ u8_or er.matching.protocol proto_any
  pub state : spec.matching.state ≡ u8_or er.state ct_none
  pub log_rate_limit : spec.log_rate_limit ≡ er.log_rate_limit_per_sec % 65536
  pub log_enabled : spec.log_enabled ≡ er.log_enabled
  pub src : IsSide er.matching.src_cidrs sets spec.matching.src_cidrs spec.matching.src_ipset_id
  pub dst : IsSide er.matching.dst_cidrs sets spec.matching.dst_cidrs spec.matching.dst_ipset_id
  pub src_ports : ArePorts er.matching.src_ports spec.matching.src_ports
  pub dst_ports : ArePorts er.matching.dst_ports spec.matching.dst_ports

IsSide-mono :
    {cidrs : List Cidr} {sets sets' : List (ℕ × List Cidr4)} {out : List Cidr4} {id : ℕ}
    → ((i : ℕ) (c : List Cidr4) → IsBound i c sets → IsBound i c sets')
    → IsSide cidrs sets out id
    → IsSide cidrs sets' out id
IsSide-mono {cidrs} {id = id} more s = record {
  fits = s.fits;
  ipv4 = s.ipv4;
  stands = elim s.stands [ inl z ↦ inl z | inr (e, b) ↦ inr (e, more id (ipv4_cidrs cidrs) b) ];
  any = s.any;
}

pub IsRuleOf-mono :
    {er : EffectiveRule} {sets sets' : List (ℕ × List Cidr4)} {spec : RuleSpec}
    → ((i : ℕ) (c : List Cidr4) → IsBound i c sets → IsBound i c sets')
    → IsRuleOf er sets spec
    → IsRuleOf er sets' spec
IsRuleOf-mono more r = record {
  id = r.id;
  action = r.action;
  direction = r.direction;
  protocol = r.protocol;
  state = r.state;
  log_rate_limit = r.log_rate_limit;
  log_enabled = r.log_enabled;
  src = IsSide-mono more r.src;
  dst = IsSide-mono more r.dst;
  src_ports = r.src_ports;
  dst_ports = r.dst_ports;
}

IsExtended-trans :
    {s₀ s₁ s₂ : CompileState} → IsExtended 1 s₀ s₁ → IsExtended 1 s₁ s₂ → IsExtended 2 s₀ s₂
IsExtended-trans a b = record {
  keeps = λ id c h. b.keeps id c (a.keeps id c h);
  few = omega (arith, a.few, b.few);
  numbers = λ room h. b.numbers (omega (arith, room, a.few)) (a.numbers (omega (arith, room)) h);
}

IsExtended-more : {s₀ s₁ : CompileState} → IsExtended 1 s₀ s₁ → IsExtended 2 s₀ s₁
IsExtended-more a = record {
  keeps = a.keeps;
  few = omega (arith, a.few);
  numbers = λ room h. a.numbers (omega (arith, room)) h;
}

-- What is known of a rule when compileRule returns with no error.
abbrev pub IsOutcome : EffectiveRule → List (ℕ × List Cidr4) → ℕ → Outcome → Type 0
IsOutcome er sets i (compiled spec) = IsRuleOf er sets spec × (spec.priority ≡ pos i)
IsOutcome er sets i (skipped_rule w) = Unit

pub finish_rule-parts :
    (er : EffectiveRule) (i : ℕ) (id : List ℕ) (src : List Cidr4) (src_id : ℕ) (dst : List Cidr4)
    (dst_id : ℕ) (sets : List (ℕ × List Cidr4)) {spec : RuleSpec}
    → parse_uuid er.rule_id ≡ some id
    → 0 < er.action % 256
    → 0 < er.direction % 256
    → IsSide er.matching.src_cidrs sets src src_id
    → IsSide er.matching.dst_cidrs sets dst dst_id
    → finish_rule er i id src src_id dst dst_id ≡ ok spec
    → IsRuleOf er sets spec × (spec.priority ≡ pos i)
unfolding finish_rule
finish_rule-parts er i id src src_id dst dst_id sets {spec} u a d ss ds h =
    elim (Result-cases (compile_ports er.matching.src_ports)) [
      | inr (x, p) ↦ let bad = rw p at h in cc
      | inl (sp, p) ↦ elim (Result-cases (compile_ports er.matching.dst_ports)) [
        | inr (x, q) ↦ let bad = rw (p, q) at h in cc
        | inl (dp, q) ↦
            subst (λ (r : RuleSpec). IsRuleOf er sets r × (r.priority ≡ pos i))
              (ok_injective (rw (p, q) at h))
              ((
                record {
                  id = u;
                  action = (refl, a);
                  direction = (refl, d);
                  protocol = refl;
                  state = refl;
                  log_rate_limit = refl;
                  log_enabled = refl;
                  src = ss;
                  dst = ds;
                  src_ports = compile_ports-ArePorts er.matching.src_ports sp p;
                  dst_ports = compile_ports-ArePorts er.matching.dst_ports dp q;
                },
                refl,
              ))
      ]
    ]

Compiled-cases :
    (c : Compiled)
    → ((w : Warning) × (c ≡ skipped w)) ⊎ ((out : List Cidr4) × (id : ℕ) × (c ≡ matched out id))
Compiled-cases (skipped w) = inl (w, refl)
Compiled-cases (matched out id) = inr (out, id, refl)

-- The state goes on with no set lost, and a rule that is compiled is one of the bundle's.
abbrev pub AfterRule : EffectiveRule → ℕ → CompileState → CompileState × Outcome → Type 0
AfterRule er i s (s', outcome) = IsExtended 2 s s' × IsOutcome er s'.ipsets i outcome

compile_sides-AfterRule :
    (er : EffectiveRule) (i : ℕ) (id : List ℕ) (s : CompileState) (after : CompileState × Outcome)
    → s.next_id + 2 < 4294967296
    → parse_uuid er.rule_id ≡ some id
    → 0 < er.action % 256
    → 0 < er.direction % 256
    → compile_sides er i id s ≡ ok after
    → AfterRule er i s after
unfolding compile_sides
compile_sides-AfterRule er i id s after room u a d h =
    let src_cidrs = er.matching.src_cidrs in
    let dst_cidrs = er.matching.dst_cidrs in
    let first = compile_cidrs src_all_ipv6 src_cidrs s in
    let ext₁ = compile_cidrs-IsExtended src_all_ipv6 src_cidrs s in
    let second = compile_cidrs dst_all_ipv6 dst_cidrs first.0 in
    let ext₂ = compile_cidrs-IsExtended dst_all_ipv6 dst_cidrs first.0 in
    elim (Compiled-cases first.1) [
      | inl (w, p) ↦
          subst (AfterRule er i s) (ok_injective (rw (p, compile_sides) at h))
            (IsExtended-more ext₁, tt)
      | inr (src, src_id, p) ↦
          let src_side = compile_cidrs-IsSide src_all_ipv6 src_cidrs s src src_id (omega arith) p in
          elim (Compiled-cases second.1) [
            | inl (w, q) ↦
                subst (AfterRule er i s) (ok_injective (rw (p, compile_sides, q) at h))
                  (IsExtended-trans ext₁ ext₂, tt)
            | inr (dst, dst_id, q) ↦
                let dst_side =
                  compile_cidrs-IsSide dst_all_ipv6 dst_cidrs first.0 dst dst_id
                    (omega (arith, ext₁.few)) q in
                elim (Result-cases (finish_rule er i id src src_id dst dst_id)) [
                  | inr (x, r) ↦ let bad = rw (p, compile_sides, q, r) at h in cc
                  | inl (spec, r) ↦
                      subst (AfterRule er i s) (ok_injective (rw (p, compile_sides, q, r) at h)) (
                        IsExtended-trans ext₁ ext₂,
                        finish_rule-parts er i id src src_id dst dst_id second.0.ipsets u a d
                            (IsSide-mono ext₂.keeps src_side) dst_side r,
                      )
                ]
          ]
    ]

pub compile_rule-AfterRule :
    (er : EffectiveRule) (i : ℕ) (s : CompileState) (after : CompileState × Outcome)
    → s.next_id + 2 < 4294967296
    → compile_rule (some er) i s ≡ ok after
    → AfterRule er i s after
unfolding compile_rule
compile_rule-AfterRule er i s after room h = elim (Bool-cases (er.action % 256 == 0)) [
  | inl a ↦ let bad = rw a at h in cc
  | inr a ↦ elim (Bool-cases (er.direction % 256 == 0)) [
    | inl d ↦ let bad = rw (a, d) at h in cc
    | inr d ↦ elim (Option-cases (parse_uuid er.rule_id)) [
      | inl u ↦ let bad = rw (a, d, u) at h in cc
      | inr (id, u) ↦
          compile_sides-AfterRule er i id s after room u (pos_of_test _ a) (pos_of_test _ d)
            (rw (a, d, u) at h)
    ]
  ]
]
