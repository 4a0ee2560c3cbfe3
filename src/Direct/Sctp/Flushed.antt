-- ===== src/Direct/Sctp/Flushed.antt =====
-- crates/rtc-tunnel-core/src/direct/mod.rs: what `pump` has taken out of the agent and of the DTLS
-- endpoint when it returns.
use rtc_tunnel.Base.{
  ◌≡◌, ◌∙◌, ap, true, ◌&&◌, none, done, fail, after, if_holds, ◌>>◌, if◌then◌else◌, succeeds, false,
  ◌⊎◌, inl, inr, Bool-cases, refl,
}
use rtc_tunnel.Platform.{Platform, Finite}
use rtc_tunnel.Direct.State.{DirectTunnel, Call, maybe_open}
use rtc_tunnel.Direct.Pump.{drain_ice_events, drain_ice_writes, drain_dtls_transmits}
use rtc_tunnel.Direct.Pump.Empty.{drain_ice_writes-none, drain_dtls_transmits-none}
use rtc_tunnel.Direct.Sctp.{
  drain_sctp, drain_channel, drain_sctp_transmits, start_dtls, drain_secured, pump,
}
use rtc_tunnel.Direct.Sctp.Agent.{pump-agent}

module _ {P : Platform} where
  -- If the call returned, a started DTLS endpoint has nothing to send.
  abbrev Emptied : Call P (Unit {0}) → Type 0
  Emptied (done _ u) = u.dtls_started ≡ true → P.dtls_poll_transmit u.dtls ≡ none
  Emptied (fail _ _) = Unit {0}

  drained-Emptied :
      (finite : Finite P) (m : Call P (Unit {0}))
      → Emptied (m >> λ t. done tt (drain_dtls_transmits t))
  drained-Emptied finite (done _ t) = λ _. drain_dtls_transmits-none finite t
  drained-Emptied finite (fail _ _) = tt

  -- Whether the channel opens or not, the endpoint stays as it is.
  maybe_open-Emptied : (t : DirectTunnel P) → Emptied (done tt t) → Emptied (done tt (maybe_open t))
  unfolding maybe_open
  maybe_open-Emptied t h =
      if_holds (λ u. Emptied (done tt u)) t.opened (λ _. h)
        (λ _.
          if_holds (λ u. Emptied (done tt u)) (t.sctp_connected && t.channel_dialed) (λ _. h)
            (λ _. h))

  opened-Emptied : (m : Call P (Unit {0})) → Emptied m → Emptied (m >> λ t. done tt (maybe_open t))
  opened-Emptied (done _ t) h = maybe_open-Emptied t h
  opened-Emptied (fail _ _) h = tt

  pump-Emptied : (finite : Finite P) (t : DirectTunnel P) → Emptied (pump t)
  unfolding pump drain_secured
  pump-Emptied finite t =
      let started = start_dtls (drain_ice_writes (drain_ice_events t)) in
      opened-Emptied (if started.dtls_started then drain_secured started else done tt started) (
        if_holds Emptied started.dtls_started
          (λ _.
            drained-Emptied finite (drain_sctp started >> drain_channel >> drain_sctp_transmits))
          (λ off on. absurd (cc (off, on))))

  -- Wherever the pump stops, the ICE agent has no datagram left, if a poll shortens its queue.
  pub pump-ice_flushed :
      (finite : Finite P) (t : DirectTunnel P) → P.ice_poll_write (after (pump t)).ice ≡ none
  pump-ice_flushed finite t =
      ap P.ice_poll_write (pump-agent t) ∙ drain_ice_writes-none finite (drain_ice_events t)

  split-Emptied :
      (m : Call P (Unit {0}))
      → Emptied m
      → (succeeds m ≡ false)
        ⊎ ((after m).dtls_started ≡ false)
        ⊎ (P.dtls_poll_transmit (after m).dtls ≡ none)
  split-Emptied (fail _ _) h = inl refl
  split-Emptied (done _ u) h = elim (Bool-cases u.dtls_started) [
    | inl on ↦ inr (inr (h on))
    | inr off ↦ inr (inl off)
  ]

  -- If every poll shortens its queue, then after a pump, wherever it stops, the ICE agent has no
  -- datagram left; and the pump stopped with an error, or the DTLS endpoint is not started, or the
  -- DTLS endpoint has no datagram left either.
  pub pump_flushed :
      (finite : Finite P) (t : DirectTunnel P)
      → (P.ice_poll_write (after (pump t)).ice ≡ none)
        × ((succeeds (pump t) ≡ false)
            ⊎ ((after (pump t)).dtls_started ≡ false)
            ⊎ (P.dtls_poll_transmit (after (pump t)).dtls ≡ none))
  pump_flushed finite t =
      (pump-ice_flushed finite t, split-Emptied (pump t) (pump-Emptied finite t))
