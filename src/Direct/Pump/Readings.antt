-- ===== src/Direct/Pump/Readings.antt =====
-- crates/rtc-tunnel-core/src/direct/mod.rs: when `drain_ice_events` leaves a reading for ICE.
use rtc_tunnel.Base.{
  ℕ, zero, suc, ◌≡◌, refl, ◌∙◌, ap, Bool, true, false, ◌||◌, Option, none, some, is_some,
  while_some, polled, if_holds, arith,
}
use rtc_tunnel.Trace.{first, observe_ice}
use rtc_tunnel.Platform.{Platform, IceEvent, connection_state_change, other_ice_event}
use rtc_tunnel.Direct.State.{DirectTunnel, ms}
use rtc_tunnel.Direct.Pump.{ready, ice_event, ice_event_step, drain_ice_events}

-- The event is a change to a connected or a completed connection.
abbrev pub reports : IceEvent → Bool
reports (connection_state_change state at) = ready state
reports (other_ice_event at) = false

-- Of the events that so many polls of the agent yield, one is such a change.
unfoldable pub news : (P : Platform) → ℕ → P.Agent → Bool
news P zero agent = false
news P (suc n) agent =
    let rest = λ (a : P.Agent). news P n a in
    elim (P.ice_poll_event agent) [ none ↦ false | some (e, next) ↦ reports e || rest next ]

first-some : (o : Option ℕ) (n : ℕ) → is_some (first o n) ≡ true
first-some none n = refl
first-some (some _) n = refl

or_assoc : (a b c : Bool) → (a || b) || c ≡ a || (b || c)
or_assoc true b c = refl
or_assoc false b c = refl

or_false : (b : Bool) → b ≡ b || false
or_false true = refl
or_false false = refl

module _ {P : Platform} where
  ice_event-reading :
      (e : IceEvent) (t : DirectTunnel P)
      → is_some (ice_event e t).trace.ice_ms ≡ is_some t.trace.ice_ms || reports e
  unfolding ice_event observe_ice
  ice_event-reading (connection_state_change state at) t =
      ground (arith, first-some t.trace.ice_ms (ms t at))
  ice_event-reading (other_ice_event at) t = or_false (is_some t.trace.ice_ms)

  ice_event-ice : (e : IceEvent) (t : DirectTunnel P) → (ice_event e t).ice ≡ t.ice
  unfolding ice_event
  ice_event-ice (connection_state_change state at) t =
      if_holds (λ (u : DirectTunnel P). u.ice ≡ t.ice) (ready state) (λ _. refl) (λ _. refl)
  ice_event-ice (other_ice_event at) t = refl

  -- A round of the loop, over what the poll yields.
  round-reading :
      (n : ℕ) (t : DirectTunnel P)
      → ((s : DirectTunnel P)
          → is_some (while_some ice_event_step n s).trace.ice_ms
            ≡ is_some s.trace.ice_ms || news P n s.ice)
      → (o : Option (IceEvent × P.Agent))
      → let next : DirectTunnel P = elim (polled o λ e ice. ice_event e (record t { ice = ice })) [
        | none ↦ t
        | some s ↦ while_some ice_event_step n s
      ] in
        let reported : Bool = elim o [
          | none ↦ false
          | some (e, agent) ↦ reports e || news P n agent
        ] in
        is_some next.trace.ice_ms ≡ is_some t.trace.ice_ms || reported
  round-reading n t later none = or_false (is_some t.trace.ice_ms)
  round-reading n t later (some (e, next)) =
      let t' = record t { ice = next } in
      later (ice_event e t')
      ∙ ap (λ a. is_some (ice_event e t').trace.ice_ms || news P n a) (ice_event-ice e t')
      ∙ ap (λ b. b || news P n next) (ice_event-reading e t')
      ∙ or_assoc (is_some t.trace.ice_ms) (reports e) (news P n next)

  while-reading :
      (n : ℕ) (t : DirectTunnel P)
      → is_some (while_some ice_event_step n t).trace.ice_ms
        ≡ is_some t.trace.ice_ms || news P n t.ice
  unfolding while_some ice_event_step news
  while-reading zero t = or_false (is_some t.trace.ice_ms)
  while-reading (suc n) t = round-reading n t (while-reading n) (P.ice_poll_event t.ice)

  -- Draining the ICE events leaves a reading for ICE exactly if there was one, or one of the events in
  -- the queue is a change to a connected or a completed connection.
  pub drain_ice_events-reading :
      (t : DirectTunnel P)
      → is_some (drain_ice_events t).trace.ice_ms
        ≡ is_some t.trace.ice_ms || news P (suc (P.ice_event_count t.ice)) t.ice
  unfolding drain_ice_events
  drain_ice_events-reading t = while-reading (suc (P.ice_event_count t.ice)) t
