-- ===== src/Compiler/Spill.antt =====
-- How compileCIDRs and compileRule treat the address lists: which lists are spilled into IPSets,
-- that every id in a rule names a set, and that filtering never widens a rule.
use qf.Common.{
  ℕ, ◌+◌, ◌≤◌, ◌<◌, ◌≡◌, ◌≢◌, ◌⊎◌, refl, false, List, [], ◌∷◌, ◌++◌, length, All, inl, inr,
  Bool-cases, Option-cases, arith, ltb, ◌==◌, ==_iff,
}
use mathlib.Core.Path.{subst₂}
use qf.Net.{to4, parse_prefix}
use qf.Net.Laws.{length-to4, parse_prefix-prefix4}
use qf.Proto.{Cidr}
use qf.Loader.{Cidr4}
use qf.Loader.Rules.Valid.{IsPrefix4}
use qf.Compiler.{CompileState, Warning, matched, alloc_ipset, ipv4_cidrs, compile_cidrs}

-- `id` names a set that was spilled, of these prefixes: more than fit inline.
abbrev pub IsBound : ℕ → List Cidr4 → List (ℕ × List Cidr4) → Type 0
IsBound id out [] = ⊥
IsBound id out ((i, cidrs) ∷ sets) =
    ((i ≡ id) × (cidrs ≡ out) × (8 < length out)) ⊎ IsBound id out sets

IsBound-append :
    (id : ℕ) (out : List Cidr4) (xs ys : List (ℕ × List Cidr4))
    → IsBound id out xs
    → IsBound id out (xs ++ ys)
IsBound-append id out [] ys h = absurd h
IsBound-append id out ((i, c) ∷ xs) ys (inl h) = inl h
IsBound-append id out ((i, c) ∷ xs) ys (inr h) = inr (IsBound-append id out xs ys h)

IsBound-last :
    (id : ℕ) (cidrs : List Cidr4) (xs : List (ℕ × List Cidr4))
    → 8 < length cidrs
    → IsBound id cidrs (xs ++ (id, cidrs) ∷ [])
IsBound-last id cidrs [] h = inl (refl, refl, h)
IsBound-last id cidrs ((i, c) ∷ xs) h = inr (IsBound-last id cidrs xs h)

-- The ids of the sets count up from `i`, to `n`.
abbrev pub IsNumbered : ℕ → List (ℕ × List Cidr4) → ℕ → Type 0
IsNumbered i [] n = n ≡ i
IsNumbered i ((id, c) ∷ sets) n = (id ≡ i + 1) × IsNumbered (i + 1) sets n

IsNumbered-last :
    (i id n : ℕ) (c : List Cidr4) (sets : List (ℕ × List Cidr4))
    → id ≡ n + 1
    → IsNumbered i sets n
    → IsNumbered i (sets ++ (id, c) ∷ []) id
IsNumbered-last i id n c [] e h = (omega (arith, e, h), omega (arith, e, h))
IsNumbered-last i id n c ((j, d) ∷ sets) e h = (h.0, IsNumbered-last (i + 1) id n c sets e h.1)

-- No set is lost, at most `n` ids are taken, and where they are there the sets stay numbered.
pub record IsExtended (n : ℕ) (s s' : CompileState) : Type 0 where
  pub keeps : (id : ℕ) (out : List Cidr4) → IsBound id out s.ipsets → IsBound id out s'.ipsets
  pub few : s'.next_id ≤ s.next_id + n
  pub numbers :
      s.next_id + n < 4294967296
      → IsNumbered 0 s.ipsets s.next_id
      → IsNumbered 0 s'.ipsets s'.next_id

-- What a matched side of a rule is: the IPv4 prefixes of the bundle's list, inline where they fit,
-- and otherwise as a set; and "match any" only for a list that was empty in the bundle.
pub record IsSide (cidrs : List Cidr) (sets : List (ℕ × List Cidr4)) (out : List Cidr4) (id : ℕ)
    : Type 0 where
  pub fits : length out ≤ 8
  pub ipv4 : All IsPrefix4 out
  pub stands :
      ((id ≡ 0) × (out ≡ ipv4_cidrs cidrs)) ⊎ ((out ≡ []) × IsBound id (ipv4_cidrs cidrs) sets)
  pub any : out ≡ [] → id ≡ 0 → cidrs ≡ []

ipv4_cidrs-IsPrefix4 : (cidrs : List Cidr) → All IsPrefix4 (ipv4_cidrs cidrs)
unfolding ipv4_cidrs
ipv4_cidrs-IsPrefix4 [] = tt
ipv4_cidrs-IsPrefix4 (c ∷ cs) = elim (Option-cases (to4 c.ip)) [
  | inl p ↦ rw (p, ipv4_cidrs) (ipv4_cidrs-IsPrefix4 cs)
  | inr (ip4, p) ↦ elim (Option-cases (parse_prefix ip4 c.prefix_len)) [
    | inl q ↦ rw (p, ipv4_cidrs, q) (ipv4_cidrs-IsPrefix4 cs)
    | inr ((net, ones), q) ↦
        let (four, le, _) = parse_prefix-prefix4 ip4 c.prefix_len (length-to4 c.ip p) q in
        rw (p, ipv4_cidrs, q) (((net, four), le), ipv4_cidrs-IsPrefix4 cs)
  ]
]

IsExtended-refl : (n : ℕ) (s : CompileState) → IsExtended n s s
IsExtended-refl n s = record { keeps = λ id out b. b; few = omega arith; numbers = λ room h. h }

alloc_ipset-IsExtended :
    (out : List Cidr4) (s : CompileState) → IsExtended 1 s (alloc_ipset out s).0
unfolding alloc_ipset
alloc_ipset-IsExtended out s = record {
  keeps = λ id c. IsBound-append id c s.ipsets _;
  few = omega arith;
  numbers = λ room h. IsNumbered-last 0 _ s.next_id out s.ipsets (omega (arith, room)) h;
}

pub compile_cidrs-IsExtended :
    (w : ℕ → Warning) (cidrs : List Cidr) (s : CompileState)
    → IsExtended 1 s (compile_cidrs w cidrs s).0
unfolding compile_cidrs
compile_cidrs-IsExtended w cidrs s = elim (Bool-cases (length cidrs == 0)) [
  | inl p ↦ rw p (IsExtended-refl 1 s)
  | inr p ↦ elim (Bool-cases (length (ipv4_cidrs cidrs) == 0)) [
    | inl q ↦ rw (p, q) (IsExtended-refl 1 s)
    | inr q ↦ elim (Bool-cases (ltb 8 (length (ipv4_cidrs cidrs)))) [
      | inl r ↦ rw (p, q, r) (alloc_ipset-IsExtended (ipv4_cidrs cidrs) s)
      | inr r ↦ rw (p, q, r) (IsExtended-refl 1 s)
    ]
  ]
]

alloc_ipset-IsBound :
    (out : List Cidr4) (s : CompileState)
    → 8 < length out
    → IsBound (alloc_ipset out s).1 out (alloc_ipset out s).0.ipsets
unfolding alloc_ipset
alloc_ipset-IsBound out s h = IsBound-last _ out s.ipsets h

alloc_ipset-ne_zero :
    (out : List Cidr4) (s : CompileState) → s.next_id + 1 < 4294967296 → (alloc_ipset out s).1 ≢ 0
unfolding alloc_ipset
alloc_ipset-ne_zero out s room z = omega arith

length_zero {ℓ} : {A : Type ℓ} (xs : List A) → length xs ≡ 0 → xs ≡ []
length_zero [] h = refl
length_zero (x ∷ xs) h = absurd (omega arith)

ipv4_cidrs_nil : (cidrs : List Cidr) → cidrs ≡ [] → [] ≡ ipv4_cidrs cidrs
unfolding ipv4_cidrs
ipv4_cidrs_nil [] h = refl
ipv4_cidrs_nil (c ∷ cs) h = cc

nonempty : (xs : List Cidr4) → (length xs == 0) ≡ false → xs ≢ []
nonempty [] h e = cc
nonempty (x ∷ xs) h e = cc

matched_injective :
    {o out : List Cidr4} {i id : ℕ} → matched o i ≡ matched out id → (o ≡ out) × (i ≡ id)
matched_injective h = (cc, cc)

IsSide-of :
    {cidrs : List Cidr} {sets : List (ℕ × List Cidr4)} {o out : List Cidr4} {i id : ℕ}
    → IsSide cidrs sets o i
    → matched o i ≡ matched out id
    → IsSide cidrs sets out id
IsSide-of {cidrs} {sets} side h =
    let (p, q) = matched_injective h in subst₂ (λ o i. IsSide cidrs sets o i) p q side

-- A side that compileCIDRs matches has the IPv4 prefixes of the bundle's list, inline if there are
-- at most eight of them and in the set that it names otherwise; it matches any address only where
-- the bundle's list is empty. For a state with an id to spare.
pub compile_cidrs-IsSide :
    (w : ℕ → Warning) (cidrs : List Cidr) (s : CompileState) (out : List Cidr4) (id : ℕ)
    → s.next_id + 1 < 4294967296
    → (compile_cidrs w cidrs s).1 ≡ matched out id
    → IsSide cidrs (compile_cidrs w cidrs s).0.ipsets out id
unfolding compile_cidrs
compile_cidrs-IsSide w cidrs s out id room h = elim (Bool-cases (length cidrs == 0)) [
  | inl p ↦ rw p (
      IsSide-of
        (record {
          fits = omega arith;
          ipv4 = tt;
          stands = inl (refl, ipv4_cidrs_nil cidrs (length_zero cidrs ((==_iff _ 0).0 p)));
          any = λ _ _. length_zero cidrs ((==_iff _ 0).0 p);
        })
        (rw p at h))
  | inr p ↦ elim (Bool-cases (length (ipv4_cidrs cidrs) == 0)) [
    | inl q ↦ let bad = rw (p, q) at h in cc
    | inr q ↦ elim (Bool-cases (ltb 8 (length (ipv4_cidrs cidrs)))) [
      | inl r ↦
          rw (p, q, r)
            (IsSide-of
              (record {
                fits = omega arith;
                ipv4 = tt;
                stands = inr (refl, alloc_ipset-IsBound (ipv4_cidrs cidrs) s (ground arith));
                any = λ _ z. absurd (alloc_ipset-ne_zero (ipv4_cidrs cidrs) s room z);
              })
              (rw (p, q, r) at h))
      | inr r ↦
          rw (p, q, r)
            (IsSide-of
              (record {
                fits = ground arith;
                ipv4 = ipv4_cidrs-IsPrefix4 cidrs;
                stands = inl (refl, refl);
                any = λ e _. absurd (nonempty (ipv4_cidrs cidrs) q e);
              })
              (rw (p, q, r) at h))
    ]
  ]
]
