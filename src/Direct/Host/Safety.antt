-- ===== src/Direct/Host/Safety.antt =====
-- What a host of crates/rtc-tunnel-core/src/direct/mod.rs may rely on, whatever it calls and
-- whatever the protocol crates answer.
use rtc_tunnel.Base.{
  ℕ, ◌+◌, ◌≤◌, ◌≡◌, refl, ◌∙◌, ap, true, is_some, List, ok, after, flag, arith, ◌⊎◌, inl, inr,
  Bool-cases, if_holds, none, suc, ◌||◌,
}
use rtc_tunnel.Net.{SocketAddr, Instant}
use rtc_tunnel.Config.{TunnelConfig}
use rtc_tunnel.Event.Count.{opens, closes}
use rtc_tunnel.Trace
use rtc_tunnel.Trace.{HandshakeTrace}
use rtc_tunnel.Platform.{Platform}
use rtc_tunnel.Direct.Change.{Reported}
use rtc_tunnel.Direct.State.{DirectTunnel, Role, instant, finish}
use rtc_tunnel.Direct.Pump.{drain_ice_events}
use rtc_tunnel.Direct.Pump.Readings.{news, drain_ice_events-reading}
use rtc_tunnel.Direct.Sctp.{pump}
use rtc_tunnel.Direct.Input.{tick, expire, time_out}
use rtc_tunnel.Direct.Setup.{Surroundings, begin}
use rtc_tunnel.Direct.Setup.Fresh.{Fresh, begin-Fresh}
use rtc_tunnel.Direct.Evolution
use rtc_tunnel.Direct.Host.{HostCall, ticks, start, step, run}
use rtc_tunnel.Direct.Host.Ledger.{history, run-Goes}

map_left : {A B C : Type 0} → (A → B) → A ⊎ C → B ⊎ C
map_left f (inl a) = inl (f a)
map_left f (inr c) = inr c

module _ {P : Platform} (env : Surroundings) (role : Role) (c : TunnelConfig)
    (local_addr : SocketAddr) (now_ms : ℕ) (t : DirectTunnel P)
    (constructed : begin P env role c local_addr now_ms ≡ ok t) (calls : List HostCall) where
  fresh : Fresh c now_ms t
  fresh = begin-Fresh env c local_addr now_ms role t constructed

  -- From construction on, whatever the host calls, the events handed over and still queued hold one
  -- `Closed` if the tunnel has finished and none if it has not, and likewise one `Opened` or none.
  pub run_announces_once :
      (closes (history (run calls (start t))) ≡ flag (run calls (start t)).tunnel.finished)
      × (opens (history (run calls (start t))) ≡ flag (run calls (start t)).tunnel.opened)
  run_announces_once =
      let g = run-Goes calls (start t) in
      let f = fresh in
      (
        ground (arith, ap closes f.events, ap opens f.events),
        ground (arith, ap closes f.events, ap opens f.events),
      )

  -- Whatever the host calls after construction, an open tunnel has a connected DTLS transport, a
  -- connected SCTP association that it still holds, and a dialed channel.
  pub run_open_secured :
      (run calls (start t)).tunnel.opened ≡ true
      → ((run calls (start t)).tunnel.dtls_connected ≡ true)
        × ((run calls (start t)).tunnel.sctp_connected ≡ true)
        × ((run calls (start t)).tunnel.channel_dialed ≡ true)
        × (is_some (run calls (start t)).tunnel.association ≡ true)
  run_open_secured h =
      let v = (run-Goes calls (start t)).valid_stays fresh.valid in
      let dialed = v.open_dialed h in
      let connected = v.dialed_connected dialed in
      let associated = v.connected_associated connected in
      (v.sctp_secured (v.associated_sctp associated), connected, dialed, associated)

  -- Whatever the host calls after construction, the trace has the construction's reading as its
  -- start, and a reading for DTLS, SCTP and the open channel exactly when that phase was reached. For
  -- ICE it has a reading only if some state of the agent, when polled, reports a connected or a
  -- completed connection; and draining the ICE events of the tunnel leaves it with a reading for ICE
  -- exactly if it had one, or one of the events polled is a change to such a connection.
  pub run_traced :
      ((run calls (start t)).tunnel.trace.start_ms ≡ now_ms)
      × (is_some (run calls (start t)).tunnel.trace.dtls_ms
          ≡ (run calls (start t)).tunnel.dtls_connected)
      × (is_some (run calls (start t)).tunnel.trace.sctp_ms
          ≡ (run calls (start t)).tunnel.sctp_connected)
      × (is_some (run calls (start t)).tunnel.trace.opened_ms ≡ (run calls (start t)).tunnel.opened)
      × (((run calls (start t)).tunnel.trace.ice_ms ≡ none) ⊎ Reported P)
      × (is_some (drain_ice_events (run calls (start t)).tunnel).trace.ice_ms
          ≡ is_some (run calls (start t)).tunnel.trace.ice_ms
            || news P
                (suc (P.ice_event_count (run calls (start t)).tunnel.ice))
                (run calls (start t)).tunnel.ice)
  run_traced =
      let g = run-Goes calls (start t) in
      let v = g.valid_stays fresh.valid in
      (
        g.trace_kept.start
            ∙ ap (λ (r : HandshakeTrace). r.start_ms) fresh.trace
            ∙ (unfold Trace.new in refl),
        v.dtls_traced,
        v.sctp_traced,
        v.open_traced,
        map_left
            (λ same.
              same ∙ ap (λ (r : HandshakeTrace). r.ice_ms) fresh.trace ∙ (unfold Trace.new in refl))
            g.ice_reported,
        drain_ice_events-reading (run calls (start t)).tunnel,
      )

module _ {P : Platform} where
  -- The handshake is over, one way or the other.
  abbrev Decided : DirectTunnel P → Type 0
  Decided t = (t.opened ≡ true) ⊎ (t.finished ≡ true)

  expire_decides :
      (now : Instant) (t : DirectTunnel P)
      → t.handshake_deadline ≤ now
      → ((expire now t).opened ≡ true) ⊎ ((expire now t).finished ≡ true)
  unfolding expire finish
  expire_decides now t h = elim (Bool-cases t.opened) [
    | inl o ↦ inl ((Evolution.expire-Evolves now t).opened_stays o)
    | inr o ↦ inr (ground arith)
  ]

  -- A tick at or past the handshake deadline leaves the tunnel open or finished.
  tick_decides :
      (n : ℕ) (t : DirectTunnel P)
      → t.handshake_deadline ≤ instant t n
      → ((tick n t).opened ≡ true) ⊎ ((tick n t).finished ≡ true)
  unfolding tick
  tick_decides n t h =
      let now = instant t n in
      let late = time_out now t in
      if_holds Decided t.finished (λ f. inr f)
        (λ _. expire_decides now (after (pump late)) (
          omega (
            arith,
            (Evolution.time_out-Evolves now t).same_deadline,
            (Evolution.pump-Evolves late).same_deadline,
          )))

module _ {P : Platform} (env : Surroundings) (role : Role) (c : TunnelConfig)
    (local_addr : SocketAddr) (now_ms : ℕ) (t : DirectTunnel P)
    (constructed : begin P env role c local_addr now_ms ≡ ok t) (calls : List HostCall) where
  -- The handshake is bounded in time: after any calls since construction, a tick whose reading is at
  -- least the construction's reading plus the configured timeout leaves the tunnel open or finished.
  pub run-tick_decides :
      (n : ℕ)
      → now_ms + c.handshake_timeout_ms ≤ n
      → let s = step (ticks n) (run calls (start t)) in
        (s.tunnel.opened ≡ true) ⊎ (s.tunnel.finished ≡ true)
  unfolding step
  run-tick_decides n h =
      let g = run-Goes calls (start t) in
      let f = begin-Fresh env c local_addr now_ms role t constructed in
      tick_decides n (run calls (start t)).tunnel
        (unfold instant in omega (arith, g.same_deadline, g.same_epoch, f.deadline))
