-- ===== src/Examples/Files.antt =====
-- The theorems on pushed and saved bundles at concrete inputs.
use qf.Common.{
  ℕ, ◌≡◌, refl, ap, sym, Bool, true, false, Option, some, none, List, [], ◌∷◌, codes, ok,
}
use qf.Common.Int.{ℤ, pos, negsuc}
use qf.Proto.{EffectiveRule}
use qf.Session.{SignedBundle}
use qf.Session.Files.{
  Wire, Disk, save_bundle, replace_file, find_file, load_and_apply, apply_verified,
}
use qf.Session.Files.Atomic.{load_and_apply-save_bundle}
use qf.Session.Signature.{sign_bundle, verify_bundle}
use qf.Session.Provider.{get_signed_bundle, get_signed_bundle-verified}
use qf.Policy.Bundle.{build_proto_bundle, get_bundle}
use qf.Policy.Ruleset.{compile}
use qf.Examples.Server.{codec, queries, host_rules}
use qf.Examples.Session.{kernel, agent, crypto, pub_key, keys, unsigned, signed, bundle_is_signed}

-- A wire format for bundles that have no rules, are signed and do not need conntrack.
abbrev bundle_of : ℤ → List (Option EffectiveRule) → ℕ → ℕ → Bool → Option ℕ → List ℕ → SignedBundle
bundle_of gen rules ingress egress ct at sig = record {
  bundle = record {
    generation = gen;
    rules = rules;
    default_ingress_action = ingress;
    default_egress_action = egress;
    requires_conntrack = ct;
  };
  signed_at = at;
  signature = sig;
}

abbrev encode : ℤ → List (Option EffectiveRule) → ℕ → ℕ → Bool → Option ℕ → List ℕ → Option (List ℕ)
encode (pos g) [] ingress egress false (some t) sig = some (g ∷ ingress ∷ egress ∷ t ∷ sig)
encode _ _ _ _ _ _ _ = none

abbrev decode : List ℕ → Option SignedBundle
decode (g ∷ ingress ∷ egress ∷ t ∷ sig) =
    some (bundle_of (pos g) [] ingress egress false (some t) sig)
decode _ = none

abbrev wire : Wire
wire = record {
  marshal = λ b.
      encode b.bundle.generation b.bundle.rules b.bundle.default_ingress_action
        b.bundle.default_egress_action b.bundle.requires_conntrack b.signed_at b.signature;
  unmarshal = decode;
}

decode-encode :
    (gen : ℤ) (rules : List (Option EffectiveRule)) (ingress egress : ℕ) (ct : Bool) (at : Option ℕ)
    (sig d : List ℕ)
    → encode gen rules ingress egress ct at sig ≡ some d
    → decode d ≡ some (bundle_of gen rules ingress egress ct at sig)
decode-encode (pos g) [] ingress egress false (some t) sig d h =
    let same : g ∷ ingress ∷ egress ∷ t ∷ sig ≡ d = cc in ap decode (sym same)
decode-encode (pos g) [] ingress egress false none sig d h = absurd cc
decode-encode (pos g) [] ingress egress true at sig d h = absurd cc
decode-encode (pos g) (r ∷ rules) ingress egress ct at sig d h = absurd cc
decode-encode (negsuc g) rules ingress egress ct at sig d h = absurd cc

abbrev disk : Disk
disk = record {
  create_ok = true;
  write_ok = true;
  chmod_ok = true;
  close_ok = true;
  rename_ok = true;
  partial = [];
  tmp_name = codes ".policy-1.tmp";
}

bundle_is_saved : (save_bundle wire disk (codes "policy.pb") signed []).1 ≡ ok tt
unfolding save_bundle replace_file
bundle_is_saved = refl

no_files : find_file disk.tmp_name [] ≡ none
unfolding find_file
no_files = refl

load_and_apply-save_bundle_example :
    load_and_apply wire crypto kernel pub_key true
      (codes "policy.pb")
      (save_bundle wire disk (codes "policy.pb") signed []).0
      agent
    ≡ apply_verified wire crypto kernel pub_key signed (ok tt) agent
load_and_apply-save_bundle_example =
    load_and_apply-save_bundle wire crypto kernel (7 ∷ []) pub_key 5 unsigned signed disk
      (codes "policy.pb") [] agent
      (λ c d h.
        decode-encode c.bundle.generation c.bundle.rules c.bundle.default_ingress_action
          c.bundle.default_egress_action c.bundle.requires_conntrack c.signed_at c.signature d h)
      keys bundle_is_signed no_files bundle_is_saved

abbrev pushed : SignedBundle
pushed = record {
  bundle = build_proto_bundle host_rules (pos 1);
  signed_at = some 5;
  signature = 7 ∷ [];
}

bundle_is_pushed : get_signed_bundle crypto (some (7 ∷ [])) 5 codec queries [] [] ≡ ok pushed
unfolding get_signed_bundle get_bundle sign_bundle compile
bundle_is_pushed = refl

get_signed_bundle-verified_example :
    (verify_bundle crypto pushed pub_key ≡ ok tt)
    × (get_bundle codec queries [] [] ≡ ok pushed.bundle)
get_signed_bundle-verified_example =
    get_signed_bundle-verified crypto (7 ∷ []) pub_key 5 codec queries [] [] pushed keys
      bundle_is_pushed
