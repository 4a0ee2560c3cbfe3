-- ===== src/Tests/Pumped.antt =====
-- A pump over a tunnel whose layers have something to send.
use rtc_tunnel.Base.{
  ◌≡◌, refl, true, none, [], ◌∷◌, after, while_some, while_ok, succeeds, ◌⊎◌, false,
}
use rtc_tunnel.Direct.State.{DirectTunnel, Call, maybe_open}
use rtc_tunnel.Direct.Pump.{
  ice_event_step, drain_ice_events, ice_write_step, drain_ice_writes, dtls_transmit_step,
  drain_dtls_transmits,
}
use rtc_tunnel.Direct.Sctp.{
  poll_association, act_on_seen, mark_connected, mark_lost, drain_sctp, drain_channel,
  drain_sctp_transmits, start_dtls, drain_secured, pump,
}
use rtc_tunnel.Direct.Sctp.Flushed.{pump_flushed}
use rtc_tunnel.Tests.Toy.{toy, toy_agent, toy-Finite}
use rtc_tunnel.Tests.Core.{tunnel}

abbrev laden : DirectTunnel toy
laden = record tunnel {
  ice = record toy_agent { writes = (1 ∷ []) ∷ (2 ∷ []) ∷ [] };
  dtls = (22 ∷ []) ∷ [];
  dtls_started = true;
}

abbrev unladen : Call toy (Unit {0})
unladen = pump laden

unladen-returned : succeeds unladen ≡ true
unfolding pump start_dtls drain_ice_writes drain_ice_events ice_event_step ice_write_step
    drain_secured drain_sctp poll_association act_on_seen mark_connected mark_lost drain_channel
    drain_sctp_transmits drain_dtls_transmits dtls_transmit_step maybe_open while_some while_ok
unladen-returned = refl

unladen-started : (after unladen).dtls_started ≡ true
unfolding pump start_dtls drain_ice_writes drain_ice_events ice_event_step ice_write_step
    drain_secured drain_sctp poll_association act_on_seen mark_connected mark_lost drain_channel
    drain_sctp_transmits drain_dtls_transmits dtls_transmit_step maybe_open while_some while_ok
unladen-started = refl

pump_flushed_example :
    (toy.ice_poll_write (after unladen).ice ≡ none)
    × ((succeeds unladen ≡ false)
        ⊎ ((after unladen).dtls_started ≡ false)
        ⊎ (toy.dtls_poll_transmit (after unladen).dtls ≡ none))
pump_flushed_example = pump_flushed toy-Finite laden
