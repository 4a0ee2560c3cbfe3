-- ===== src/Direct/Pump/Empty.antt =====
-- crates/rtc-tunnel-core/src/direct/mod.rs: each loop ends because its queue is empty, the fuel that
-- it was given is enough.
use rtc_tunnel.Base.{
  ℕ, suc, ◌<◌, ◌≡◌, refl, ap, Option, none, some, arith, while_some-none, polled, polled-eq-none,
  if_holds,
}
use rtc_tunnel.Platform.{Platform, Finite, IceEvent, connection_state_change, other_ice_event}
use rtc_tunnel.Direct.State.{DirectTunnel}
use rtc_tunnel.Direct.Pump.{
  ready, ice_event, ice_event_step, drain_ice_events, ice_write_step, drain_ice_writes,
  dtls_transmit_step, drain_dtls_transmits,
}

-- A poll loop's round yields an object with less left, if every poll of its queue does.
polled_falls :
    {X A S : Type 0} (o : Option (X × A)) (body : X → A → S) (measure : S → ℕ) (left : ℕ)
    → ((x : X) (a : A) → o ≡ some (x, a) → measure (body x a) < left)
    → (s : S) → polled o body ≡ some s
    → measure s < left
polled_falls none body measure left h s e = absurd (cc)
polled_falls (some (x, a)) body measure left h s e =
    let q : body x a ≡ s = cc in omega (arith, h x a refl, ap measure q)

module _ {P : Platform} (finite : Finite P) where
  ice_event-ice : (e : IceEvent) (t : DirectTunnel P) → (ice_event e t).ice ≡ t.ice
  unfolding ice_event
  ice_event-ice (connection_state_change state at) t =
      if_holds (λ (u : DirectTunnel P). u.ice ≡ t.ice) (ready state) (λ _. refl) (λ _. refl)
  ice_event-ice (other_ice_event at) t = refl

  -- Draining the ICE events leaves the agent without an event, if a poll shortens its queue.
  pub drain_ice_events-none :
      (t : DirectTunnel P) → P.ice_poll_event (drain_ice_events t).ice ≡ none
  unfolding drain_ice_events ice_event_step
  drain_ice_events-none t = polled-eq-none _ _ (
      while_some-none ice_event_step (λ u. P.ice_event_count u.ice)
        (λ s s' e.
          polled_falls _ _ (λ (u : DirectTunnel P). P.ice_event_count u.ice) _
            (λ x a q. omega (
              arith,
              finite.ice_events s.ice a x q,
              ap P.ice_event_count (ice_event-ice x (record s { ice = a })),
            ))
            s' e)
        (suc (P.ice_event_count t.ice)) t (omega arith))

  -- Draining the ICE writes leaves the agent with nothing to send, if a poll shortens its queue.
  pub drain_ice_writes-none :
      (t : DirectTunnel P) → P.ice_poll_write (drain_ice_writes t).ice ≡ none
  unfolding drain_ice_writes ice_write_step
  drain_ice_writes-none t = polled-eq-none _ _ (
      while_some-none ice_write_step (λ u. P.ice_write_count u.ice)
        (λ s s' e.
          polled_falls _ _ (λ (u : DirectTunnel P). P.ice_write_count u.ice) _
            (λ x a q. finite.ice_writes s.ice a x q) s' e)
        (suc (P.ice_write_count t.ice)) t (omega arith))

  -- Draining the DTLS transmits leaves the endpoint with nothing to send, if a poll shortens its
  -- queue.
  pub drain_dtls_transmits-none :
      (t : DirectTunnel P) → P.dtls_poll_transmit (drain_dtls_transmits t).dtls ≡ none
  unfolding drain_dtls_transmits dtls_transmit_step
  drain_dtls_transmits-none t = polled-eq-none _ _ (
      while_some-none dtls_transmit_step (λ u. P.dtls_transmit_count u.dtls)
        (λ s s' e.
          polled_falls _ _ (λ (u : DirectTunnel P). P.dtls_transmit_count u.dtls) _
            (λ x a q. finite.dtls_transmits s.dtls a x q) s' e)
        (suc (P.dtls_transmit_count t.dtls)) t (omega arith))

  -- The loops that empty the queues of the agent and of the DTLS endpoint end because nothing is left,
  -- if a poll shortens its queue: afterwards the agent has no event and nothing to send, and the
  -- endpoint nothing to send.
  pub drains_end :
      (t : DirectTunnel P)
      → (P.ice_poll_event (drain_ice_events t).ice ≡ none)
        × (P.ice_poll_write (drain_ice_writes t).ice ≡ none)
        × (P.dtls_poll_transmit (drain_dtls_transmits t).dtls ≡ none)
  drains_end t = (drain_ice_events-none t, drain_ice_writes-none t, drain_dtls_transmits-none t)
