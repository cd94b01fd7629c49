-- ===== src/Session/Agent.antt =====
-- The agent's session: Agent.runSession of agent/internal/agent/agent.go on a stream that takes
-- every message, with its system events and without the disk buffer, the other senders and their
-- settings.
use qf.Common.{ℕ, Bool, true, if◌then◌else◌, Option, none, some, List, [], ◌∷◌, ◌++◌}
use qf.Common.Int.{ℤ, pos, negsuc}
use qf.Loader.{Kernel}
use qf.Handler.{ApplyResult}
use qf.Handler
use qf.Session.{
  SignedBundle, ServerMessage, AgentMessage, welcome, policy_bundle, config_update,
  disconnect_request, cert_renewal_response, hello, system_event,
}
use qf.Session.Signature.{Crypto}
use qf.Session.Client.{
  HandleResult, waiting, rejected, unexpected, disconnected, done, handshake, handle_bundle,
}

-- The generation of the Hello and of the heartbeats: 0 before a bundle is applied.
abbrev pub generation_of : Option ApplyResult → ℤ
generation_of none = pos 0
generation_of (some ar) = ar.generation

pub data AgentEnding : Type 0 where
  serving in_handshake handshake_failed reader_failed : AgentEnding
  left : ℕ → AgentEnding

-- The system events that a session sends.
abbrev pub cp_connected : AgentMessage
cp_connected = system_event 0

abbrev pub agent_started : AgentMessage
agent_started = system_event 1

abbrev pub cp_disconnected : AgentMessage
cp_disconnected = system_event 2

abbrev pub connected_events : ℤ → List AgentMessage
connected_events (pos ℕ.zero) = cp_connected ∷ agent_started ∷ []
connected_events (pos (ℕ.suc n)) = cp_connected ∷ []
connected_events (negsuc n) = cp_connected ∷ []

-- What has been done and sent before the rest.
abbrev pub sending :
    List AgentMessage
    → Handler.Agent × List AgentMessage × AgentEnding
    → Handler.Agent × List AgentMessage × AgentEnding
sending ms (a, sent, e) = (a, ms ++ sent, e)

module _ (crypto : Crypto) (k : Kernel) (bundle_key : List ℕ) where
  -- The receive loop on the messages that arrive.
  unfoldable pub receive :
      List ServerMessage → Handler.Agent → Handler.Agent × List AgentMessage × AgentEnding
  receive [] a = (a, [], serving)
  receive (policy_bundle b ∷ ms) a =
      let (a', sent, outcome) = handle_bundle crypto k b bundle_key true true a in
      sending sent (receive ms a')
  receive (config_update c ∷ ms) a = receive ms a
  receive (disconnect_request s ∷ ms) a = (a, cp_disconnected ∷ [], left s.reconnect_after_ms)
  receive (cert_renewal_response r ∷ ms) a = receive ms a
  receive (welcome w ∷ ms) a = receive ms a

  abbrev pub initial :
      Option SignedBundle → Handler.Agent → Handler.Agent × List AgentMessage × HandleResult
  initial none a = (a, [], HandleResult.handled)
  initial (some b) a = handle_bundle crypto k b bundle_key true true a

  -- `reader_ok` is whether NewEventReader succeeds, after the handshake.
  unfoldable pub run_session :
      Bool → List ServerMessage → Handler.Agent → Handler.Agent × List AgentMessage × AgentEnding
  unfolding handshake
  run_session reader_ok ms a =
      let generation = generation_of a.current in
      elim (handshake generation ms) [
        | waiting ↦ (a, hello generation ∷ [], in_handshake)
        | rejected reason ↦ (a, hello generation ∷ [], handshake_failed)
        | unexpected m ↦ (a, hello generation ∷ [], handshake_failed)
        | disconnected reason ↦ (a, hello generation ∷ [], handshake_failed)
        | done w b rest ↦
            let (a', sent, outcome) = initial b a in
            let rest' = receive rest a' in
            sending (hello generation ∷ sent ++ connected_events generation)
              (if reader_ok then rest' else (a', [], reader_failed))
      ]
