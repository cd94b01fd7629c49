-- ===== src/Loader/Ipset/Clear.antt =====
-- What ClearIPSets leaves, and what PushIPSet adds.
use qf.Common.{◌≡◌, refl, true, List, [], ◌∷◌, ok, inl, inr, Bool-cases, arith, ap, ◌∙◌}
use qf.Loader.{BpfObjects, Kernel, IpsetLpmKey}
use qf.Loader.Ipset.{key_eq, delete_key, delete_keys, clear_ipsets}

key_eq_refl : (a : IpsetLpmKey) → key_eq a a ≡ true
key_eq_refl a = ground arith

module _ (k : Kernel) where
  -- The maps that ClearIPSets does not touch keep their contents, whatever it returns.
  delete_keys-rest :
      (keys : List IpsetLpmKey) (m : BpfObjects)
      → ((delete_keys k keys m).0.qf_rules ≡ m.qf_rules)
        × ((delete_keys k keys m).0.qf_rule_count ≡ m.qf_rule_count)
        × ((delete_keys k keys m).0.qf_config ≡ m.qf_config)
        × ((delete_keys k keys m).0.max_rules ≡ m.max_rules)
  unfolding delete_keys
  delete_keys-rest [] m = (refl, refl, refl, refl)
  delete_keys-rest (j ∷ js) m = elim (Bool-cases (k.ipset_delete_ok j)) [
    | inl p ↦ rw p (delete_keys-rest js (record m { qf_ipsets = delete_key j m.qf_ipsets }))
    | inr p ↦ rw p (refl, refl, refl, refl)
  ]

  delete_keys_all :
      (m : BpfObjects)
      → (keys : List IpsetLpmKey) → m.qf_ipsets ≡ keys
      → (delete_keys k keys m).1 ≡ ok tt
      → (delete_keys k keys m).0.qf_ipsets ≡ []
  unfolding delete_keys delete_key
  delete_keys_all m [] e h = e
  delete_keys_all m (j ∷ js) e h = elim (Bool-cases (k.ipset_delete_ok j)) [
    | inl p ↦ rw p (
        delete_keys_all (record m { qf_ipsets = delete_key j m.qf_ipsets }) js
          (ap (delete_key j) e ∙ rw (key_eq_refl j)) (rw p at h))
    | inr p ↦ let bad = rw p at h in cc
  ]

  -- A ClearIPSets that returns no error leaves no key of any set, and nothing else changed.
  pub clear_ipsets_ok :
      (m : BpfObjects)
      → (clear_ipsets k m).1 ≡ ok tt
      → ((clear_ipsets k m).0.qf_ipsets ≡ [])
        × ((clear_ipsets k m).0.qf_rules ≡ m.qf_rules)
        × ((clear_ipsets k m).0.qf_rule_count ≡ m.qf_rule_count)
        × ((clear_ipsets k m).0.qf_config ≡ m.qf_config)
        × ((clear_ipsets k m).0.max_rules ≡ m.max_rules)
  unfolding clear_ipsets
  clear_ipsets_ok m h = elim (Bool-cases k.ipset_iterate_ok) [
    | inr p ↦ let bad = rw p at h in cc
    | inl p ↦
        let (a, b, c, d) = delete_keys-rest m.qf_ipsets m in
        rw p (delete_keys_all m m.qf_ipsets refl (rw p at h), a, b, c, d)
  ]

  -- Rules, their count and the configuration survive ClearIPSets whatever it returns.
  pub clear_ipsets-rest :
      (m : BpfObjects)
      → ((clear_ipsets k m).0.qf_rules ≡ m.qf_rules)
        × ((clear_ipsets k m).0.qf_rule_count ≡ m.qf_rule_count)
        × ((clear_ipsets k m).0.qf_config ≡ m.qf_config)
        × ((clear_ipsets k m).0.max_rules ≡ m.max_rules)
  unfolding clear_ipsets
  clear_ipsets-rest m = elim (Bool-cases k.ipset_iterate_ok) [
    | inr p ↦ rw p (refl, refl, refl, refl)
    | inl p ↦ rw p (delete_keys-rest m.qf_ipsets m)
  ]
