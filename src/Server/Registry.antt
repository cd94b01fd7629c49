-- ===== src/Server/Registry.antt =====
-- cp/internal/agentsrv/registry.go: the streams of connected agents, keyed by host. Each operation
-- holds the lock, so a run of the server is a sequence of them.
pub mod Sessions
use qf.Common.{
  ℕ, Bool, true, false, Option, none, some, List, [], ◌∷◌, ◌++◌, Text, text_eq, if◌then◌else◌,
}
use qf.Common.Int.{ℤ, inc, dec}

pub record DisconnectSignal : Type 0 where
  pub reason : Text
  pub reconnect_after_ms : ℕ

-- A stream is known by a number; its channel holds one pending signal. `sent` lists the bundles
-- that were sent on it, the latest last.
pub record ActiveStream (Bundle : Type 0) : Type 0 where
  pub stream : ℕ
  pub pending : Option DisconnectSignal
  pub sent : List Bundle

abbrev pub Streams : Type 0 → Type 0
Streams Bundle = List (Text × ActiveStream Bundle)

-- The map, and the gauge of active streams.
pub record StreamRegistry (Bundle : Type 0) : Type 0 where
  pub streams : Streams Bundle
  pub active_streams : ℤ

abbrev pub or_pending : Option DisconnectSignal → DisconnectSignal → Option DisconnectSignal
or_pending none s = some s
or_pending (some old) s = some old

module _ {Bundle : Type 0} where
  unfoldable pub lookup : Text → Streams Bundle → Option (ActiveStream Bundle)
  lookup h [] = none
  lookup h ((j, a) ∷ m) = let rest = lookup h m in if text_eq j h then some a else rest

  unfoldable pub remove : Text → Streams Bundle → Streams Bundle
  remove h [] = []
  remove h ((j, a) ∷ m) = let rest = remove h m in if text_eq j h then rest else (j, a) ∷ rest

  -- A new entry replaces the old one of its host.
  unfoldable pub insert : Text → ActiveStream Bundle → Streams Bundle → Streams Bundle
  unfolding remove
  insert h a m = (h, a) ∷ remove h m

  unfoldable pub register : Text → ℕ → StreamRegistry Bundle → StreamRegistry Bundle
  unfolding insert
  register host_id stream r = record {
    streams = insert host_id (record { stream = stream; pending = none; sent = [] }) r.streams;
    active_streams = inc r.active_streams;
  }

  unfoldable pub deregister : Text → StreamRegistry Bundle → StreamRegistry Bundle
  unfolding remove
  deregister host_id r = record {
    streams = remove host_id r.streams;
    active_streams = dec r.active_streams;
  }

  abbrev set_stream :
      Text → StreamRegistry Bundle → Option (ActiveStream Bundle) → StreamRegistry Bundle
  set_stream host_id r none = r
  set_stream host_id r (some a) = record r { streams = insert host_id a r.streams }

  -- A send that fails is only logged.
  abbrev pub send : Bool → Bundle → Option (ActiveStream Bundle) → Option (ActiveStream Bundle)
  send send_ok bundle none = none
  send true bundle (some a) = some (record a { sent = a.sent ++ bundle ∷ [] })
  send false bundle (some a) = some a

  unfoldable pub dispatch : Text → Bundle → Bool → StreamRegistry Bundle → StreamRegistry Bundle
  unfolding lookup insert
  dispatch host_id bundle send_ok r =
      set_stream host_id r (send send_ok bundle (lookup host_id r.streams))

  -- A signal that is already pending is kept.
  abbrev pub signal : DisconnectSignal → Option (ActiveStream Bundle) → Option (ActiveStream Bundle)
  signal s none = none
  signal s (some a) = some (record a { pending = or_pending a.pending s })

  unfoldable pub disconnect :
      Text → DisconnectSignal → StreamRegistry Bundle → StreamRegistry Bundle
  unfolding lookup insert
  disconnect host_id s r = set_stream host_id r (signal s (lookup host_id r.streams))

  abbrev hosts : Streams Bundle → List Text
  hosts [] = []
  hosts ((h, a) ∷ m) = h ∷ hosts m

  unfoldable pub disconnect_each :
      List Text → DisconnectSignal → StreamRegistry Bundle → StreamRegistry Bundle
  unfolding disconnect
  disconnect_each [] s r = r
  disconnect_each (h ∷ hs) s r = disconnect_each hs s (disconnect h s r)

  unfoldable pub disconnect_all : DisconnectSignal → StreamRegistry Bundle → StreamRegistry Bundle
  unfolding disconnect_each
  disconnect_all s r = disconnect_each (hosts r.streams) s r
