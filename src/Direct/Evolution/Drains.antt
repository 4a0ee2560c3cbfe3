-- ===== src/Direct/Evolution/Drains.antt =====
-- crates/rtc-tunnel-core/src/direct/mod.rs: the loops that empty the queues of ICE and DTLS evolve
-- the tunnel, and leave nothing in the queue.
use rtc_tunnel.Base.{ℕ, ◌≡◌, refl, some, arith, while_some_keeps, polled_holds, if_holds, inr}
use rtc_tunnel.Event.{send_datagram}
use rtc_tunnel.Trace.{observe_ice}
use rtc_tunnel.Trace.First.{observe_ice-Extends}
use rtc_tunnel.Platform.{Platform, IceEvent, connection_state_change, other_ice_event}
use rtc_tunnel.Direct.State.{DirectTunnel, ms}
use rtc_tunnel.Direct.Change.{
  Evolves, Evolves-refl, Evolves-trans, Evolves-IsPreorder, Plumbing-Evolves, Quiet-Evolves,
  push_back-Evolves, Reported,
}
use rtc_tunnel.Direct.Pump.{
  ice_event, ice_event_step, drain_ice_events, ice_write_step, drain_ice_writes, dtls_transmit_step,
  drain_dtls_transmits, ready,
}

module _ {P : Platform} where
  ice_traced-Evolves :
      (now : ℕ) (t : DirectTunnel P)
      → Reported P
      → Evolves t (record t { trace = observe_ice now t.trace })
  ice_traced-Evolves now t r =
      Quiet-Evolves t _ (ground arith) (observe_ice-Extends now t.trace) (inr r)
        (unfold observe_ice in λ v. assumption)

  ice_event-Evolves :
      (b a : P.Agent) (e : IceEvent) (t : DirectTunnel P)
      → P.ice_poll_event b ≡ some (e, a)
      → Evolves t (ice_event e t)
  unfolding ice_event
  ice_event-Evolves b a (connection_state_change state at) t q =
      if_holds (Evolves t) (ready state)
        (λ r. ice_traced-Evolves (ms t at) t (b, a, state, at, q, r)) (λ _. Evolves-refl t)
  ice_event-Evolves b a (other_ice_event at) t q = Evolves-refl t

  pub ice_set-Evolves : (a : P.Agent) (t : DirectTunnel P) → Evolves t (record t { ice = a })
  ice_set-Evolves a t = Plumbing-Evolves t _ (ground arith)

  pub dtls_set-Evolves : (d : P.Dtls) (t : DirectTunnel P) → Evolves t (record t { dtls = d })
  dtls_set-Evolves d t = Plumbing-Evolves t _ (ground arith)

  ice_event_step-Evolves : (t t' : DirectTunnel P) → ice_event_step t ≡ some t' → Evolves t t'
  unfolding ice_event_step
  ice_event_step-Evolves t t' =
      polled_holds (Evolves t) (P.ice_poll_event t.ice)
        (λ x a q.
          Evolves-trans t (record t { ice = a }) (ice_event x (record t { ice = a }))
            (ice_set-Evolves a t) (ice_event-Evolves t.ice a x (record t { ice = a }) q))
        t'

  pub drain_ice_events-Evolves : (t : DirectTunnel P) → Evolves t (drain_ice_events t)
  unfolding drain_ice_events
  drain_ice_events-Evolves t =
      while_some_keeps Evolves-IsPreorder ice_event_step ice_event_step-Evolves _ t

  ice_write_step-Evolves : (t t' : DirectTunnel P) → ice_write_step t ≡ some t' → Evolves t t'
  unfolding ice_write_step
  ice_write_step-Evolves t t' =
      polled_holds (Evolves t) (P.ice_poll_write t.ice)
        (λ x a _.
          Evolves-trans t (record t { ice = a }) _ (ice_set-Evolves a t)
            (push_back-Evolves (send_datagram x) (record t { ice = a }) refl refl))
        t'

  pub drain_ice_writes-Evolves : (t : DirectTunnel P) → Evolves t (drain_ice_writes t)
  unfolding drain_ice_writes
  drain_ice_writes-Evolves t =
      while_some_keeps Evolves-IsPreorder ice_write_step ice_write_step-Evolves _ t

  dtls_transmit_step-Evolves :
      (t t' : DirectTunnel P) → dtls_transmit_step t ≡ some t' → Evolves t t'
  unfolding dtls_transmit_step
  dtls_transmit_step-Evolves t t' =
      polled_holds (Evolves t) (P.dtls_poll_transmit t.dtls)
        (λ x a _.
          Evolves-trans t (record t { dtls = a }) _ (dtls_set-Evolves a t)
            (push_back-Evolves (send_datagram x) (record t { dtls = a }) refl refl))
        t'

  pub drain_dtls_transmits-Evolves : (t : DirectTunnel P) → Evolves t (drain_dtls_transmits t)
  unfolding drain_dtls_transmits
  drain_dtls_transmits-Evolves t =
      while_some_keeps Evolves-IsPreorder dtls_transmit_step dtls_transmit_step-Evolves _ t
