-- ===== src/Loader/Settings/Roundtrip.antt =====
-- What GetConfig reads after SetConfig.
use Prim.Native.Nat.{bit_and, bit_or}
use qf.Common.{
  ℕ, ◌<◌, ◌%◌, ◌≡◌, refl, Bool, true, false, not, ok, arith, inl, inr, Bool-cases, ◌==◌,
  if◌then◌else◌,
}
use qf.Loader.{Config, BpfObjects, Kernel}
use qf.Loader.Settings.{set_config, get_config, or_allow}

-- The configuration as it is stored: an action of 0 stands for allow.
abbrev pub normalised : Config → Config
normalised c = record c {
  default_ingress = or_allow c.default_ingress;
  default_egress = or_allow c.default_egress;
}

flags_read :
    (a b : Bool)
    → let flags = bit_or (if a then 1 else 0) (if b then 2 else 0) in
      (not (bit_and flags 1 == 0) ≡ a) × (not (bit_and flags 2 == 0) ≡ b)
flags_read true true = (refl, refl)
flags_read true false = (refl, refl)
flags_read false true = (refl, refl)
flags_read false false = (refl, refl)

or_allow_stored : (a : ℕ) → a < 256 → or_allow (or_allow a % 256) ≡ or_allow a
or_allow_stored a h = ground arith

module _ (k : Kernel) where
  -- After a SetConfig that returns no error, a GetConfig whose reads succeed gives back the
  -- configuration, with an unset default action as allow. The defaults are bytes.
  pub get_config-set_config :
      (c : Config) (m : BpfObjects)
      → c.default_ingress < 256
      → c.default_egress < 256
      → k.config_lookup_ok 0 ≡ true
      → k.config_lookup_ok 1 ≡ true
      → k.config_lookup_ok 2 ≡ true
      → (set_config k c m).1 ≡ ok tt
      → get_config k (set_config k c m).0 ≡ ok (normalised c)
  unfolding set_config get_config
  get_config-set_config c m hi he l0 l1 l2 h = elim (Bool-cases (k.config_put_ok 0)) [
    | inr p ↦ let bad = rw p at h in cc
    | inl p ↦ elim (Bool-cases (k.config_put_ok 1)) [
      | inr q ↦ let bad = rw (p, q) at h in cc
      | inl q ↦ elim (Bool-cases (k.config_put_ok 2)) [
        | inr s ↦ let bad = rw (p, q, s) at h in cc
        | inl s ↦
            let (fa, fb) = flags_read c.conntrack_enabled c.flow_events_enabled in
            rw (p, q, s, l0, l1, l2, fa, fb, or_allow_stored _ hi, or_allow_stored _ he)
      ]
    ]
  ]
