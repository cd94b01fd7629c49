-- ===== src/Session/Applied.antt =====
-- What the agent's reports on a bundle say of the signature and of the datapath.
use qf.Common.{
  ℕ, ◌*◌, ◌%◌, ◌^◌, ◌<◌, ◌≡◌, refl, Bool, true, false, ◌||◌, some, List, [], ◌∷◌, length, ok, err,
  Bool-cases, Result-cases, inl, inr,
}
use qf.Loader.{Kernel}
use qf.Loader.Rules.{convert_rules}
use qf.Handler.{Agent, ApplyResult, apply}
use qf.Handler.Atomic.{apply_ok}
use qf.Session.{
  SignedBundle, AgentMessage, hello, heartbeat, bundle_ack, bundle_applied, log_events, flow_events,
  counter_update, system_event, other_message,
}
use qf.Session.Signature.{Crypto, IsKeyPair, sign_bundle, verify_bundle, verify_bundle-sign_bundle}
use qf.Session.Client.{handled, ack_of, report, is_applied, handle_bundle}

abbrev pub is_success : AgentMessage → Bool
is_success (bundle_applied b) = b.success
is_success (hello g) = false
is_success (heartbeat g) = false
is_success (bundle_ack a) = false
is_success (log_events n) = false
is_success (flow_events n) = false
is_success (counter_update n) = false
is_success (system_event n) = false
is_success other_message = false

-- Whether a message reports that a bundle was applied.
abbrev pub reports_success : List AgentMessage → Bool
reports_success [] = false
reports_success (m ∷ ms) = is_success m || reports_success ms

module _ (crypto : Crypto) (k : Kernel) where
  -- A bundle whose signature does not verify leaves the agent and its datapath as they are, and
  -- the agent does not report success.
  pub handle_bundle_unverified :
      (b : SignedBundle) (pub_key : List ℕ) (ack_ok applied_ok : Bool) (a : Agent) {e : _}
      → verify_bundle crypto b pub_key ≡ err e
      → ((handle_bundle crypto k b pub_key ack_ok applied_ok a).0 ≡ a)
        × (reports_success (handle_bundle crypto k b pub_key ack_ok applied_ok a).1 ≡ false)
  unfolding handle_bundle
  handle_bundle_unverified b pub_key true true a h = rw h (refl, refl)
  handle_bundle_unverified b pub_key true false a h = rw h (refl, refl)
  handle_bundle_unverified b pub_key false applied_ok a h = (refl, refl)

  -- When the agent reports that it applied a bundle, the signature of the bundle verifies, the
  -- result that is current has the bundle's generation, and the datapath evaluates as many entries
  -- as the rules of that result convert to. For bundles of fewer than 2^31 rules.
  pub handle_bundle_success :
      (b : SignedBundle) (pub_key : List ℕ) (ack_ok applied_ok : Bool) (a : Agent)
      → 2 * length b.bundle.rules < 4294967296
      → reports_success (handle_bundle crypto k b pub_key ack_ok applied_ok a).1 ≡ true
      → (verify_bundle crypto b pub_key ≡ ok tt)
        × (ar : ApplyResult) × ((handle_bundle crypto k b pub_key ack_ok applied_ok a).0.current
            ≡ some ar)
        × (ar.generation ≡ b.bundle.generation)
        × (entries : _) × (convert_rules 0 ar.rules ≡ ok entries)
        × ((handle_bundle crypto k b pub_key ack_ok applied_ok a).0.objs.qf_rule_count
            ≡ length entries % 2 ^ 32)
  unfolding handle_bundle
  handle_bundle_success b pub_key false applied_ok a room h = absurd cc
  handle_bundle_success b pub_key true applied_ok a room h =
      elim (Result-cases (verify_bundle crypto b pub_key)) [
        | inr (e, p) ↦ elim (Bool-cases applied_ok) [
          | inl q ↦ let bad = rw (p, q) at h in cc
          | inr q ↦ let bad = rw (p, q) at h in cc
        ]
        | inl (_, p) ↦ elim (Result-cases (apply k (some b.bundle) a).1) [
          | inr (e, q) ↦ elim (Bool-cases applied_ok) [
            | inl r ↦ let bad = rw (p, q, r) at h in cc
            | inr r ↦ let bad = rw (p, q, r) at h in cc
          ]
          | inl (ar, q) ↦
              let (c, g, es, conv, n, slots) = apply_ok k b.bundle a ar room q in
              rw p (refl, ar, c, g, es, conv, n)
        ]
      ]

  -- A bundle that the private key of a pair signs, sent to an agent that has the public key, on a
  -- stream that takes the agent's messages: the agent acknowledges it as verified, its state is
  -- that after Apply of the bundle, and it reports success exactly where Apply succeeds.
  pub handle_bundle-sign_bundle :
      (priv_key pub_key : List ℕ) (now : ℕ) (b s : SignedBundle) (a : Agent)
      → IsKeyPair crypto priv_key pub_key
      → sign_bundle crypto priv_key now b ≡ ok s
      → handle_bundle crypto k s pub_key true true a ≡ (
        (apply k (some s.bundle) a).0,
        bundle_ack (ack_of s.bundle.generation (ok tt))
            ∷ report s.bundle.generation (is_applied (apply k (some s.bundle) a).1)
            ∷ [],
        handled,
      )
  unfolding handle_bundle
  handle_bundle-sign_bundle priv_key pub_key now b s a keys h =
      rw (verify_bundle-sign_bundle crypto priv_key pub_key now b s keys h) refl
