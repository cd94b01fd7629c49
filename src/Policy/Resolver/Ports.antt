-- ===== src/Policy/Resolver/Ports.antt =====
-- Port ranges as the control plane reads them.
use qf.Common.{
  ℕ, ◌≤◌, ◌≡◌, some, Text, ok, inl, inr, >>=-eq-ok, Bool-cases, Option-cases, ok_injective, arith,
  ltb, length, ◌==◌,
}
use mathlib.Core.Path.{subst}
use qf.Proto.{PortRange}
use qf.Policy.{bad_port, or_err, or_err-eq-ok}
use qf.Policy.Resolver.{parse_uint, parse_digits, split_dash, parse_port_range}

parse_uint-le : (s : Text) {n : ℕ} → parse_uint s ≡ some n → n ≤ 4294967295
unfolding parse_uint
parse_uint-le s h = elim (Bool-cases (length s == 0)) [
  | inl p ↦ let bad = rw p at h in cc
  | inr p ↦ elim (Option-cases (parse_digits 0 s)) [
    | inl q ↦ let bad = rw (p, q) at h in cc
    | inr (v, q) ↦ let e = rw (p, q) at h in ground arith
  ]
]

-- Every text that parses gives a range in order, of 32-bit numbers.
pub parse_port_range_bounds :
    (s : Text) (p : PortRange)
    → parse_port_range s ≡ ok p
    → (p.start ≤ p.end) × (p.end ≤ 4294967295)
unfolding parse_port_range
parse_port_range_bounds s p h = elim (Option-cases (split_dash s)) [
  | inl d ↦
      let (n, e, k) =
        >>=-eq-ok _ (or_err (bad_port s) (parse_uint s)) (rw (d, parse_port_range) at h) in
      let le = parse_uint-le s (or_err-eq-ok _ _ e) in
      subst (λ (r : PortRange). (r.start ≤ r.end) × (r.end ≤ 4294967295)) (ok_injective k)
        (omega arith, le)
  | inr ((a, b), d) ↦
      let (lo, e, k) =
        >>=-eq-ok _ (or_err (bad_port s) (parse_uint a)) (rw (d, parse_port_range) at h) in
      let (hi, f, l) = >>=-eq-ok _ (or_err (bad_port s) (parse_uint b)) k in
      let le = parse_uint-le b (or_err-eq-ok _ _ f) in
      elim (Bool-cases (ltb hi lo)) [
        | inl t ↦ let bad = rw t at l in cc
        | inr t ↦
            subst (λ (r : PortRange). (r.start ≤ r.end) × (r.end ≤ 4294967295))
              (ok_injective (rw t at l)) (ground arith, le)
      ]
]
