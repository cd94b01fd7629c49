-- ===== src/Server/Registry/Sessions.antt =====
-- Streams that come and go.
use qf.Common.{
  ℕ, ◌≡◌, Bool, none, some, [], ◌∷◌, ◌++◌, Text, text_eq, text_eq_iff, text_eq_refl, arith, inl,
  inr, ◌∙◌, if◌then◌else◌, Bool-cases, Option-cases,
}
use qf.Server.Registry.{
  Streams, ActiveStream, StreamRegistry, DisconnectSignal, lookup, remove, insert, register,
  deregister, dispatch, disconnect, signal,
}

module _ {Bundle : Type 0} where
  lookup-remove :
      (h j : Text) (m : Streams Bundle)
      → lookup j (remove h m) ≡ (if text_eq h j then none else lookup j m)
  unfolding lookup remove
  lookup-remove h j [] = ground arith
  lookup-remove h j ((i, a) ∷ m) =
      ground (arith, text_eq_iff h j, text_eq_iff i h, text_eq_iff i j, lookup-remove h j m)

  lookup-insert :
      (h j : Text) (a : ActiveStream Bundle) (m : Streams Bundle)
      → lookup j (insert h a m) ≡ (if text_eq h j then some a else lookup j m)
  unfolding lookup insert
  lookup-insert h j a m = ground (arith, lookup-remove h j m)

  -- A bundle is appended to what was sent on the stream of its host, if there is one and the send
  -- succeeds; no other stream is touched.
  pub lookup-dispatch :
      (h j : Text) (b : Bundle) (send_ok : Bool) (r : StreamRegistry Bundle)
      → lookup j (dispatch h b send_ok r).streams ≡ (
          if text_eq h j
          then elim (lookup h r.streams) [
            | none ↦ none
            | some a ↦ some (if send_ok then record a { sent = a.sent ++ b ∷ [] } else a)
          ]
          else lookup j r.streams)
  unfolding dispatch
  lookup-dispatch h j b send_ok r = elim (Option-cases (lookup h r.streams)) [
    | inl p ↦ rw (p, dispatch) (ground (arith, text_eq_iff h j))
    | inr (a, p) ↦ elim (Bool-cases send_ok) [
      | inl q ↦ rw (p, dispatch, q) (lookup-insert h j _ r.streams)
      | inr q ↦ rw (p, dispatch, q) (lookup-insert h j _ r.streams)
    ]
  ]

  -- When a host has connected again, the end of its old session takes the new stream out: the host
  -- is then unknown to Dispatch, which sends it nothing.
  pub stale_deregister_drops :
      (h : Text) (old new : ℕ) (b : Bundle) (send_ok : Bool) (r : StreamRegistry Bundle)
      → let after = deregister h (register h new (register h old r)) in
        (lookup h after.streams ≡ none) × (dispatch h b send_ok after ≡ after)
  unfolding deregister register dispatch
  stale_deregister_drops h old new b send_ok r =
      let gone =
        lookup-remove h h (register h new (register h old r)).streams ∙ rw (text_eq_refl h) in
      (gone, rw (gone, dispatch))

  lookup-disconnect :
      (h j : Text) (s : DisconnectSignal) (r : StreamRegistry Bundle)
      → lookup j (disconnect h s r).streams
        ≡ (if text_eq h j then signal s (lookup h r.streams) else lookup j r.streams)
  unfolding disconnect
  lookup-disconnect h j s r = elim (Option-cases (lookup h r.streams)) [
    | inl p ↦ rw (p, disconnect) (ground (arith, text_eq_iff h j))
    | inr (a, p) ↦ rw (p, disconnect) (lookup-insert h j _ r.streams)
  ]
