-- ===== src/Loader/Ipset/Fill.antt =====
-- What PushIPSet adds to the trie.
use qf.Common.{
  ℕ, suc, ◌≡◌, refl, Bool, false, ◌||◌, List, [], ◌∷◌, ok, inl, inr, Bool-cases, Option-cases,
  arith, ltb, ◌==◌, ◌∙◌, ◌≢◌,
}
use qf.Net.{to4}
use qf.Loader.{Cidr4, BpfObjects, Kernel, IpsetLpmKey}
use qf.Loader.Ipset.{key_eq, update_key, lpm_key, push_entries, push_ipset}

-- Whether the trie holds a key.
unfoldable pub has_key : IpsetLpmKey → List IpsetLpmKey → Bool
has_key k [] = false
has_key k (j ∷ js) = key_eq j k || has_key k js

-- Whether a prefix of the list has this key in the set `id`.
unfoldable pub listed : IpsetLpmKey → ℕ → List Cidr4 → Bool
listed k id [] = false
listed k id (c ∷ cs) = key_eq (lpm_key id c) k || listed k id cs

has_key-update_key :
    (k j : IpsetLpmKey) (l : List IpsetLpmKey)
    → has_key k (update_key j l) ≡ key_eq j k || has_key k l
unfolding has_key update_key
has_key-update_key k j [] = refl
has_key-update_key k j (i ∷ is) = ground (arith, has_key-update_key k j is)

or_swap : (a b c : Bool) → a || (b || c) ≡ (b || a) || c
or_swap a b c = ground arith

module _ (k : Kernel) where
  push_entries-has_key :
      (id i : ℕ) (cs : List Cidr4) (m : BpfObjects) (key : IpsetLpmKey)
      → (push_entries k id i cs m).1 ≡ ok tt
      → has_key key (push_entries k id i cs m).0.qf_ipsets
        ≡ listed key id cs || has_key key m.qf_ipsets
  unfolding push_entries listed
  push_entries-has_key id i [] m key h = refl
  push_entries-has_key id i (c ∷ cs) m key h = elim (Option-cases (to4 c.ip)) [
    | inl p ↦ let bad = rw (p, push_entries) at h in cc
    | inr (ip4, p) ↦ elim (Bool-cases (ltb 32 c.ones)) [
      | inl q ↦ let bad = rw (p, push_entries, q) at h in cc
      | inr q ↦ elim (Bool-cases (k.ipset_update_ok (lpm_key id c))) [
        | inr s ↦ let bad = rw (p, push_entries, q, s) at h in cc
        | inl s ↦
            let m' : BpfObjects = record m { qf_ipsets = update_key (lpm_key id c) m.qf_ipsets } in
            rw (p, push_entries, q, s)
              (push_entries-has_key id (suc i) cs m' key (rw (p, push_entries, q, s) at h)
                ∙ rw (has_key-update_key key (lpm_key id c) m.qf_ipsets) (
                    or_swap (listed key id cs) (key_eq (lpm_key id c) key)
                      (has_key key m.qf_ipsets)))
      ]
    ]
  ]

  push_entries-rest :
      (id i : ℕ) (cs : List Cidr4) (m : BpfObjects)
      → ((push_entries k id i cs m).0.qf_rules ≡ m.qf_rules)
        × ((push_entries k id i cs m).0.qf_rule_count ≡ m.qf_rule_count)
        × ((push_entries k id i cs m).0.qf_config ≡ m.qf_config)
        × ((push_entries k id i cs m).0.max_rules ≡ m.max_rules)
  unfolding push_entries
  push_entries-rest id i [] m = (refl, refl, refl, refl)
  push_entries-rest id i (c ∷ cs) m = elim (Option-cases (to4 c.ip)) [
    | inl p ↦ rw (p, push_entries) (refl, refl, refl, refl)
    | inr (ip4, p) ↦ elim (Bool-cases (ltb 32 c.ones)) [
      | inl q ↦ rw (p, push_entries, q) (refl, refl, refl, refl)
      | inr q ↦ elim (Bool-cases (k.ipset_update_ok (lpm_key id c))) [
        | inr s ↦ rw (p, push_entries, q, s) (refl, refl, refl, refl)
        | inl s ↦
            let m' : BpfObjects = record m { qf_ipsets = update_key (lpm_key id c) m.qf_ipsets } in
            rw (p, push_entries, q, s) (push_entries-rest id (suc i) cs m')
      ]
    ]
  ]

  -- A PushIPSet that returns no error has a set that is not 0, adds the keys of its prefixes, and
  -- removes none.
  pub push_ipset-has_key :
      (id : ℕ) (cs : List Cidr4) (m : BpfObjects)
      → (push_ipset k id cs m).1 ≡ ok tt
      → (id ≢ 0)
        × ((key : IpsetLpmKey)
            → has_key key (push_ipset k id cs m).0.qf_ipsets
              ≡ listed key id cs || has_key key m.qf_ipsets)
  unfolding push_ipset
  push_ipset-has_key id cs m h = elim (Bool-cases (id == 0)) [
    | inl p ↦ let bad = rw p at h in cc
    | inr p ↦ rw p (ground arith, λ key. push_entries-has_key id 0 cs m key (rw p at h))
  ]

  -- Whatever PushIPSet returns, it has written to no other map.
  pub push_ipset-rest :
      (id : ℕ) (cs : List Cidr4) (m : BpfObjects)
      → ((push_ipset k id cs m).0.qf_rules ≡ m.qf_rules)
        × ((push_ipset k id cs m).0.qf_rule_count ≡ m.qf_rule_count)
        × ((push_ipset k id cs m).0.qf_config ≡ m.qf_config)
        × ((push_ipset k id cs m).0.max_rules ≡ m.max_rules)
  unfolding push_ipset
  push_ipset-rest id cs m = elim (Bool-cases (id == 0)) [
    | inl p ↦ rw p (refl, refl, refl, refl)
    | inr p ↦ rw p (push_entries-rest id 0 cs m)
  ]
