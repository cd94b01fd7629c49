-- ===== src/Session/CatchUp.antt =====
-- A reconnect from end to end: what Stream sends opens the agent's session, and what the agent
-- sends is handled by Stream.
use qf.Common.{
  ℕ, ◌+◌, ◌*◌, ◌<◌, ◌≡◌, refl, Bool, true, false, Option, some, List, [], ◌∷◌, ◌++◌, map, length,
  Result, ok, ◌∙◌, ap, arith,
}
use qf.Common.Int.{ℤ, pos, negsuc, ltb_ℤ}
use qf.Loader.{Kernel}
use qf.Policy.{Uuid, Codec}
use qf.Handler.{ApplyResult, apply}
use qf.Handler
use qf.Handler.Atomic.{apply_ok}
use qf.Session.{
  SignedBundle, AgentMessage, welcome, policy_bundle, hello, system_event, BundleAck, bundle_ack,
}
use qf.Session.Signature.{Crypto, IsKeyPair, sign_bundle}
use qf.Session.Applied.{handle_bundle-sign_bundle}
use qf.Session.Agent.{generation_of, connected_events, serving, receive, run_session}
use qf.Session.Client.{HandleResult, report, handle_bundle, handshake}
use qf.Session.Service.{
  PeerIdentity, HostRow, Desk, SessionError, welcome_of, to_int32, catch_up, opening, parse_uuids,
  handle_message, StreamEvent, running, received, serve, connect,
}

abbrev pub without_hello : List AgentMessage → List AgentMessage
without_hello [] = []
without_hello (m ∷ ms) = ms

-- What an agent sends that is behind its host's generation, and that is not.
abbrev replies : Bool → ℤ → List AgentMessage → List AgentMessage
replies true g sent = (sent ++ connected_events g) ++ []
replies false g sent = connected_events g ++ (sent ++ [])

module _ (crypto : Crypto) (k : Kernel) (bundle_key : List ℕ) where
  receive_pushed :
      (s : SignedBundle) (a a' : Handler.Agent) (sent : List AgentMessage) {r : HandleResult}
      → handle_bundle crypto k s bundle_key true true a ≡ (a', sent, r)
      → receive crypto k bundle_key (policy_bundle s ∷ []) a ≡ (a', sent ++ [], serving)
  unfolding receive
  receive_pushed s a a' sent e = rw e refl

  receive_end : (a : Handler.Agent) → receive crypto k bundle_key [] a ≡ (a, [], serving)
  unfolding receive
  receive_end a = refl

  run_session_pushed :
      (h : HostRow) (s : SignedBundle) (a a' : Handler.Agent) (sent : List AgentMessage)
      {r : HandleResult} {c : Bool}
      → handle_bundle crypto k s bundle_key true true a ≡ (a', sent, r)
      → ltb_ℤ (generation_of a.current) h.current_generation ≡ c
      → run_session crypto k bundle_key true (welcome (welcome_of h) ∷ policy_bundle s ∷ []) a
        ≡ (a', hello (generation_of a.current) ∷ replies c (generation_of a.current) sent, serving)
  unfolding run_session handshake
  run_session_pushed h s a a' sent {c = true} e p =
      rw (run_session, handshake, p, e, receive_end a') refl
  run_session_pushed h s a a' sent {c = false} e p =
      rw (run_session, handshake, p, receive_pushed s a a' sent e) refl

module _ (codec : Codec) (id : PeerIdentity) (ids : Uuid × Uuid)
    (parsed : parse_uuids codec id ≡ some ids) where
  serve_step :
      (m : AgentMessage) (ws : List StreamEvent) (d d' : Desk)
      → handle_message codec id true m d ≡ (d', ok tt)
      → serve codec id true (received m ∷ ws) d ≡ serve codec id true ws d'
  unfolding serve
  serve_step m ws d d' h =
      rw (serve, h)
        (ap (λ (r : Desk × Result SessionError (Unit {0})). serve codec id true ws r.0) h)

  handle_telemetry :
      (n : ℕ) (d : Desk)
      → handle_message codec id true (system_event n) d
        ≡ (record d { ingested = d.ingested ++ system_event n ∷ [] }, ok tt)
  unfolding handle_message
  handle_telemetry n d = rw parsed refl

  handle_ack :
      (ack : BundleAck) (d : Desk) → handle_message codec id true (bundle_ack ack) d ≡ (d, ok tt)
  unfolding handle_message
  handle_ack ack d = refl

  handle_report :
      (gen : ℤ) (d : Desk)
      → handle_message codec id true (report gen true) d
        ≡ (record d { row = record d.row { current_generation = to_int32 gen } }, ok tt)
  unfolding handle_message
  handle_report gen d = rw parsed refl

  serve_telemetry :
      (n : ℕ) (ws : List StreamEvent) (d : Desk)
      → serve codec id true (received (system_event n) ∷ ws) d
        ≡ serve codec id true ws (record d { ingested = d.ingested ++ system_event n ∷ [] })
  serve_telemetry n ws d = serve_step _ ws d _ (handle_telemetry n d)

  serve-report :
      (gen : ℤ) (ack : BundleAck) (ws : List StreamEvent) (d : Desk)
      → serve codec id true (received (bundle_ack ack) ∷ received (report gen true) ∷ ws) d
        ≡ serve codec id true ws
            (record d { row = record d.row { current_generation = to_int32 gen } })
  serve-report gen ack ws d =
      serve_step _ _ d _ (handle_ack ack d) ∙ serve_step _ ws d _ (handle_report gen d)

  serve_end : (d : Desk) → serve codec id true [] d ≡ (d, [], running)
  unfolding serve
  serve_end d = refl

  serve-replies :
      (c : Bool) (g gen : ℤ) (ack : BundleAck) (d : Desk)
      → (serve codec id true
          (map received (replies c g (bundle_ack ack ∷ report gen true ∷ [])))
          d).0.row.current_generation
        ≡ to_int32 gen
  serve-replies true (pos ℕ.zero) gen ack d = simp (serve-report, serve_telemetry, serve_end) refl
  serve-replies true (pos (ℕ.suc n)) gen ack d =
      simp (serve-report, serve_telemetry, serve_end) refl
  serve-replies true (negsuc n) gen ack d = simp (serve-report, serve_telemetry, serve_end) refl
  serve-replies false (pos ℕ.zero) gen ack d = simp (serve-report, serve_telemetry, serve_end) refl
  serve-replies false (pos (ℕ.suc n)) gen ack d =
      simp (serve-report, serve_telemetry, serve_end) refl
  serve-replies false (negsuc n) gen ack d = simp (serve-report, serve_telemetry, serve_end) refl

to_int32_small : (n : ℕ) → n < 2147483648 → to_int32 (pos n) ≡ pos n
unfolding to_int32
to_int32_small n h = ground arith

module _ (codec : Codec) (id : PeerIdentity) (crypto : Crypto) (k : Kernel) where
  -- One session, with the bundle that the control plane has for the host.
  unfoldable pub reconnect :
      List ℕ → Option SignedBundle → Handler.Agent → Desk → Handler.Agent × Desk
  unfolding opening run_session serve
  reconnect bundle_key provided a d =
      let sent = opening (generation_of a.current) (connect d).row provided in
      let (a', replies, e) = run_session crypto k bundle_key true sent a in
      (a', (serve codec id true (map received (without_hello replies)) (connect d)).0)

  -- An agent that is below the desired generation of its host reconnects, and the control plane
  -- has a bundle with the generation after the host's current one, signed with the key that the
  -- agent knows. Where Apply succeeds, the stream takes every message, the event reader opens and
  -- the queries succeed, the agent then has the bundle's generation and the host's row has it as its current one.
  -- For bundles of fewer than 2^31 rules, generations that fit 32 bits, and an identity that
  -- reads as two ids.
  pub reconnect_behind :
      (priv_key bundle_key : List ℕ) (now m : ℕ) (b s : SignedBundle) (a : Handler.Agent) (d : Desk)
      (ids : Uuid × Uuid) (ar : ApplyResult)
      → parse_uuids codec id ≡ some ids
      → IsKeyPair crypto priv_key bundle_key
      → sign_bundle crypto priv_key now b ≡ ok s
      → s.bundle.generation ≡ pos (m + 1)
      → d.row.current_generation ≡ pos m
      → m + 1 < 2147483648
      → 2 * length s.bundle.rules < 4294967296
      → ltb_ℤ (generation_of a.current) d.row.desired_generation ≡ true
      → (apply k (some s.bundle) a).1 ≡ ok ar
      → (generation_of (reconnect bundle_key (some s) a d).0.current ≡ pos (m + 1))
        × ((reconnect bundle_key (some s) a d).1.row.current_generation ≡ pos (m + 1))
  unfolding reconnect
  reconnect_behind priv_key bundle_key now m b s a d ids ar parsed keys signed gen row small room
        behind applied =
      let (c, g, es, conv, n, slots) = apply_ok k s.bundle a ar room applied in
      let handled = handle_bundle-sign_bundle crypto k priv_key bundle_key now b s a keys signed in
      let run =
        run_session_pushed crypto k bundle_key d.row s a (apply k (some s.bundle) a).0 _ handled
          refl in
      (
        rw (reconnect, opening, catch_up, behind, run) (rw c (g ∙ gen)),
        rw (reconnect, opening, catch_up, behind, run, applied)
            (serve-replies codec id ids parsed
                (ltb_ℤ (generation_of a.current) d.row.current_generation) (generation_of a.current)
                s.bundle.generation _ (connect d)
              ∙ ap to_int32 gen
              ∙ to_int32_small (m + 1) small),
      )
