-- ===== src/Session/Client.antt =====
-- The agent's end: agent/internal/grpcclient/handshake.go and bundle.go.
use qf.Common.{
  ℕ, Bool, true, false, not, Option, none, some, List, [], ◌∷◌, Text, Result, ok, err,
  if◌then◌else◌,
}
use qf.Common.Int.{ℤ, ltb_ℤ}
use qf.Loader.{Kernel}
use qf.Handler.{Agent, ApplyResult, ApplyError, apply}
use qf.Session.{
  SignedBundle, Welcome, ServerMessage, AgentMessage, BundleAck, welcome, policy_bundle,
  config_update, disconnect_request, cert_renewal_response, bundle_ack, bundle_applied,
}
use qf.Session.Signature.{
  Crypto, VerifyError, no_signature, invalid_signature, canonical_bytes_failed, verify_bundle,
}

-- How far Handshake gets on the messages that have arrived: it waits for more, it fails, or it
-- returns the Welcome and the bundle, with the messages that it has left.
pub data Handshake : Type 0 where
  waiting : Handshake
  rejected : Text → Handshake
  unexpected : ServerMessage → Handshake
  disconnected : Text → Handshake
  done : Welcome → Option SignedBundle → List ServerMessage → Handshake

abbrev pub initial_bundle : Welcome → List ServerMessage → Handshake
initial_bundle w [] = waiting
initial_bundle w (policy_bundle b ∷ ms) = done w (some b) ms
initial_bundle w (disconnect_request s ∷ ms) = disconnected s.reason
initial_bundle w (welcome v ∷ ms) = unexpected (welcome v)
initial_bundle w (config_update c ∷ ms) = unexpected (config_update c)
initial_bundle w (cert_renewal_response s ∷ ms) = unexpected (cert_renewal_response s)

-- Handshake after Hello is sent, with the agent's generation.
unfoldable pub handshake : ℤ → List ServerMessage → Handshake
handshake generation [] = waiting
handshake generation (welcome w ∷ ms) =
    if not w.accepted
    then rejected w.reject_reason
    else if ltb_ℤ generation w.server_generation
    then initial_bundle w ms
    else done w none ms
handshake generation (policy_bundle b ∷ ms) = unexpected (policy_bundle b)
handshake generation (config_update c ∷ ms) = unexpected (config_update c)
handshake generation (disconnect_request s ∷ ms) = unexpected (disconnect_request s)
handshake generation (cert_renewal_response s ∷ ms) = unexpected (cert_renewal_response s)

-- How HandleBundle ends.
pub data HandleResult : Type 0 where
  handled ack_not_sent applied_not_sent : HandleResult

abbrev has_message : VerifyError → Bool
has_message no_signature = false
has_message invalid_signature = true
has_message canonical_bytes_failed = true

abbrev pub ack_of : ℤ → Result VerifyError (Unit {0}) → BundleAck
ack_of gen (ok _) = record {
  generation = gen;
  signature_verified = true;
  has_error_message = false;
}
ack_of gen (err e) = record {
  generation = gen;
  signature_verified = false;
  has_error_message = has_message e;
}

abbrev pub report : ℤ → Bool → AgentMessage
report gen success = bundle_applied (record { generation = gen; success = success })

abbrev sends : Bool → AgentMessage → List AgentMessage → List AgentMessage
sends true m sent = m ∷ sent
sends false m sent = sent

abbrev ended : Bool → HandleResult
ended true = handled
ended false = applied_not_sent

abbrev pub is_applied : Result ApplyError ApplyResult → Bool
is_applied (ok ar) = true
is_applied (err e) = false

module _ (crypto : Crypto) (k : Kernel) where
  -- The stream takes the first message where `ack_ok`, and the second where `applied_ok`.
  abbrev after_ack :
      ℤ
      → SignedBundle
      → Bool
      → Result VerifyError (Unit {0})
      → Agent
      → Agent × List AgentMessage × HandleResult
  after_ack gen b applied_ok (err e) a =
      (a, sends applied_ok (report gen false) [], ended applied_ok)
  after_ack gen b applied_ok (ok _) a =
      let (a', applied) = apply k (some b.bundle) a in
      (a', sends applied_ok (report gen (is_applied applied)) [], ended applied_ok)

  abbrev acknowledged :
      BundleAck
      → Agent × List AgentMessage × HandleResult
      → Agent × List AgentMessage × HandleResult
  acknowledged ack (a, sent, r) = (a, bundle_ack ack ∷ sent, r)

  unfoldable pub handle_bundle :
      SignedBundle → List ℕ → Bool → Bool → Agent → Agent × List AgentMessage × HandleResult
  unfolding verify_bundle apply
  handle_bundle b pub_key ack_ok applied_ok a =
      let gen = b.bundle.generation in
      let verified = verify_bundle crypto b pub_key in
      if ack_ok
      then acknowledged (ack_of gen verified) (after_ack gen b applied_ok verified a)
      else (a, [], ack_not_sent)
