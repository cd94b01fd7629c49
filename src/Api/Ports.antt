-- ===== src/Api/Ports.antt =====
-- The ports of a ruleset as /hosts/{id}/ruleset prints them.
use qf.Common.{
  ℕ, zero, suc, ◌+◌, ◌-◌, ◌*◌, ◌/◌, ◌%◌, ◌≤◌, ◌<◌, ◌≡◌, refl, ap, ◌∙◌, true, false, ◌&&◌, Option,
  none, some, [], ◌∷◌, ◌++◌, Text, ok, All, length, ltb, leb, ◌==◌, Bool-cases, inl, inr, arith,
  if◌then◌else◌, length-append,
}
use qf.Proto.{PortRange}
use qf.Policy.Resolver.{parse_digits, parse_uint, split_dash, parse_port_range}
use qf.Api.Hosts.{print_digits, print_uint, port_range_to_str}

abbrev add_digit : ℕ → Option ℕ → Option ℕ
add_digit c none = none
add_digit c (some v) = some (v * 10 + (c - b'0'))

abbrev IsDigit : ℕ → Type 0
IsDigit c = (leb b'0' c && leb c b'9') ≡ true

parse_digits-append :
    (acc c : ℕ) (cs : Text)
    → IsDigit c
    → parse_digits acc (cs ++ c ∷ []) ≡ add_digit c (parse_digits acc cs)
unfolding parse_digits
parse_digits-append acc c [] h = rw h refl
parse_digits-append acc c (d ∷ ds) h = elim (Bool-cases (leb b'0' d && leb d b'9')) [
  | inl e ↦ rw e (parse_digits-append (acc * 10 + (d - b'0')) c ds h)
  | inr e ↦ rw e refl
]

-- One more digit of fuel is enough for a number ten times as large.
print_digits-step :
    (f n : ℕ)
    → print_digits (suc f) n
      ≡ (if ltb n 10 then (b'0' + n) ∷ [] else print_digits f (n / 10) ++ (b'0' + n % 10) ∷ [])
unfolding print_digits
print_digits-step f n = refl

abbrev pow10 : ℕ → ℕ
pow10 zero = 1
pow10 (suc f) = 10 * pow10 f

single : (n : ℕ) → n < 10 → parse_digits 0 ((b'0' + n) ∷ []) ≡ some n
unfolding parse_digits
single n h = ground arith

parse_digits-print_digits :
    (f n : ℕ) → n < 10 * pow10 f → parse_digits 0 (print_digits (suc f) n) ≡ some n
parse_digits-print_digits zero n h = rw (print_digits-step zero n) (ground (arith, single n))
parse_digits-print_digits (suc f) n h = elim (Bool-cases (ltb n 10)) [
  | inl e ↦ rw (print_digits-step (suc f) n, e) (single n (ground arith))
  | inr e ↦
      let ih = parse_digits-print_digits f (n / 10) (omega arith) in
      let digit : IsDigit (b'0' + n % 10) = ground arith in
      rw
        (
          print_digits-step (suc f) n,
          e,
          parse_digits-append 0 (b'0' + n % 10) (print_digits (suc f) (n / 10)) digit,
          ih,
        )
        (ap some (omega arith))
]

All-digits : (f n : ℕ) → All IsDigit (print_digits f n)
unfolding print_digits
All-digits zero n = tt
All-digits (suc f) n = elim (Bool-cases (ltb n 10)) [
  | inl e ↦ rw e (ground arith, tt)
  | inr e ↦ rw e (snoc (print_digits f (n / 10)) (All-digits f (n / 10)))
]
  where
    snoc : (xs : Text) → All IsDigit xs → All IsDigit (xs ++ (b'0' + n % 10) ∷ [])
    snoc [] h = (ground arith, tt)
    snoc (x ∷ xs) h = (h.0, snoc xs h.1)

print_digits_nonempty : (f n : ℕ) → (length (print_digits (suc f) n) == 0) ≡ false
unfolding print_digits
print_digits_nonempty f n = elim (Bool-cases (ltb n 10)) [
  | inl e ↦ rw e refl
  | inr e ↦ rw (e, length-append {0}) (ground arith)
]

split_dash-digits : (xs : Text) → All IsDigit xs → split_dash xs ≡ none
unfolding split_dash
split_dash-digits [] h = refl
split_dash-digits (x ∷ xs) h =
    let other : (x == b'-') ≡ false = ground (arith, h.0) in
    rw (other, split_dash-digits xs h.1) refl

split_dash-append : (xs ys : Text) → All IsDigit xs → split_dash (xs ++ b'-' ∷ ys) ≡ some (xs, ys)
unfolding split_dash
split_dash-append [] ys h = refl
split_dash-append (x ∷ xs) ys h =
    let other : (x == b'-') ≡ false = ground (arith, h.0) in
    rw (other, split_dash-append xs ys h.1) refl

parse_uint-print_uint : (n : ℕ) → n ≤ 4294967295 → parse_uint (print_uint n) ≡ some n
unfolding parse_uint print_uint
parse_uint-print_uint n h =
    let fits : ltb 4294967295 n ≡ false = ground arith in
    rw (print_digits_nonempty 9 n, parse_digits-print_digits 9 n (omega arith), fits) refl

print_uint-digits : (n : ℕ) → All IsDigit (print_uint n)
unfolding print_uint
print_uint-digits n = All-digits 10 n

parse_one :
    (s : Text) (n : ℕ)
    → split_dash s ≡ none
    → parse_uint s ≡ some n
    → parse_port_range s ≡ ok (record { start = n; end = n })
unfolding parse_port_range
parse_one s n p q = rw (parse_port_range, p, q) refl

parse_two :
    (s a b : Text) (m n : ℕ)
    → split_dash s ≡ some (a, b)
    → parse_uint a ≡ some m
    → parse_uint b ≡ some n
    → ltb n m ≡ false
    → parse_port_range s ≡ ok (record { start = m; end = n })
unfolding parse_port_range
parse_two s a b m n p q r k = rw (parse_port_range, p, q, r, k) refl

-- A range in order, of 32-bit numbers, is read back as it was from the text that the API shows for
-- it.
pub parse-port_range_to_str :
    (p : PortRange)
    → p.start ≤ p.end
    → p.end ≤ 4294967295
    → parse_port_range (port_range_to_str p) ≡ ok p
unfolding port_range_to_str
parse-port_range_to_str p h k = elim (Bool-cases (p.start == p.end)) [
  | inl e ↦
      let same : p.start ≡ p.end = ground (arith, e) in
      rw e (
        parse_one (print_uint p.start) p.start (split_dash-digits _ (print_uint-digits p.start))
          (parse_uint-print_uint p.start (omega arith))
        ∙ (λ i. ok (record { start = p.start; end = same i })))
  | inr e ↦
      let fst = print_uint p.start in
      let snd = print_uint p.end in
      rw e (
        parse_two (fst ++ b'-' ∷ snd) fst snd p.start p.end
          (split_dash-append fst snd (print_uint-digits p.start))
          (parse_uint-print_uint p.start (omega arith)) (parse_uint-print_uint p.end k)
          (ground arith))
]
