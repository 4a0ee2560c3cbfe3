-- ===== src/Direct/Pump.antt =====
-- crates/rtc-tunnel-core/src/direct/mod.rs: the methods that move ICE, DTLS and SCTP forward. Each
-- loop that empties a queue has as fuel what the queue holds, and one round more.
pub mod Empty
pub mod Readings
use rtc_tunnel.Base.{
  ℕ, suc, Bool, true, false, Option, none, some, is_some, List, [], Bytes, Result, ok, err, done,
  fail, if◌then◌else◌, while_some, polled, while_ok, for_each,
}
use rtc_tunnel.Net.{Instant}
use rtc_tunnel.Event.{send_datagram, message, max_message_size}
use rtc_tunnel.Trace.{observe_ice, observe_dtls}
use rtc_tunnel.Platform.{
  Platform, IceState, IceEvent, connection_state_change, other_ice_event, DtlsEvent, Ppi,
  DatagramEvent,
}
use rtc_tunnel.Direct.State.{DirectTunnel, Call, is_offerer, config_error, push_back, ms}

abbrev pub ready : IceState → Bool
ready IceState.connected = true
ready IceState.completed = true
ready IceState.not_ready = false

module _ {P : Platform} where
  -- `drain_ice_events`
  unfoldable pub ice_event : IceEvent → DirectTunnel P → DirectTunnel P
  ice_event (connection_state_change state at) t =
      if ready state then record t { trace = observe_ice (ms t at) t.trace } else t
  ice_event (other_ice_event at) t = t

  unfoldable pub ice_event_step : DirectTunnel P → Option (DirectTunnel P)
  ice_event_step t = polled (P.ice_poll_event t.ice) λ e ice. ice_event e (record t { ice = ice })

  unfoldable pub drain_ice_events : DirectTunnel P → DirectTunnel P
  drain_ice_events t = while_some ice_event_step (suc (P.ice_event_count t.ice)) t

  unfoldable pub ice_write_step : DirectTunnel P → Option (DirectTunnel P)
  ice_write_step t =
      polled (P.ice_poll_write t.ice)
        λ bytes ice. push_back (send_datagram bytes) (record t { ice = ice })

  unfoldable pub drain_ice_writes : DirectTunnel P → DirectTunnel P
  drain_ice_writes t = while_some ice_write_step (suc (P.ice_write_count t.ice)) t

  unfoldable pub dtls_transmit_step : DirectTunnel P → Option (DirectTunnel P)
  dtls_transmit_step t =
      polled (P.dtls_poll_transmit t.dtls)
        λ bytes dtls. push_back (send_datagram bytes) (record t { dtls = dtls })

  unfoldable pub drain_dtls_transmits : DirectTunnel P → DirectTunnel P
  drain_dtls_transmits t = while_some dtls_transmit_step (suc (P.dtls_transmit_count t.dtls)) t

  -- `activate_dtls`, with the assignment of its result to `dtls_started` that follows each call.
  unfoldable pub connect_dtls : Option P.DtlsConfig → DirectTunnel P → DirectTunnel P
  connect_dtls none t = record t { dtls_started = false }
  connect_dtls (some config) t =
      let (started, dtls) = P.dtls_connect t.last_now t.remote_addr config t.dtls in
      record t { dtls = dtls; dtls_started = started }

  unfoldable pub activate_dtls : DirectTunnel P → DirectTunnel P
  activate_dtls t =
      if is_offerer t.role then connect_dtls t.dtls_config t else record t { dtls_started = true }

  unfoldable pub connected_to :
      Result (List ℕ) (P.Handle × P.Association) × P.Sctp → DirectTunnel P → Call P (Unit {0})
  connected_to (ok (handle, association), sctp) t = done tt (record t {
    sctp = some sctp;
    association = some association;
    association_handle = some handle;
  })
  connected_to (err e, sctp) t =
      fail (config_error "sctp connect: " e) (record t { sctp = some sctp })

  unfoldable pub start_sctp : DirectTunnel P → Call P (Unit {0})
  start_sctp t =
      let transport_config = P.sctp_config max_message_size t.sctp_port in
      if is_offerer t.role
      then connected_to (P.sctp_connect t.last_now transport_config t.remote_addr (P.new_sctp none))
          t
      else done tt (record t {
        sctp = some (P.new_sctp (some transport_config));
        sctp_config = some transport_config;
      })

  -- `feed_sctp`
  unfoldable pub datagram_event :
      Option (P.Handle × DatagramEvent P.Association P.AssociationEvent)
      → DirectTunnel P
      → DirectTunnel P
  datagram_event none t = t
  datagram_event (some (handle, DatagramEvent.new_association association)) t = record t {
    association = some association;
    association_handle = some handle;
  }
  datagram_event (some (handle, DatagramEvent.association_event event)) t = elim t.association [
    | none ↦ t
    | some association ↦ record t { association = some (P.handle_event event association) }
  ]
  datagram_event (some (handle, DatagramEvent.other_datagram_event)) t = t

  unfoldable pub feed_sctp : Instant → Bytes → DirectTunnel P → Call P (Unit {0})
  feed_sctp now datagram t = elim t.sctp [
    | none ↦ done tt t
    | some endpoint ↦
        let (event, sctp) = P.sctp_handle now t.remote_addr datagram endpoint in
        done tt (datagram_event event (record t { sctp = some sctp }))
  ]

  -- `feed_dtls`
  unfoldable pub dtls_event : Instant → DtlsEvent → DirectTunnel P → Call P (Unit {0})
  dtls_event now DtlsEvent.handshake_complete t =
      let t' = record t { dtls_connected = true; trace = observe_dtls (ms t now) t.trace } in
      if is_some t'.sctp then done tt t' else start_sctp t'
  dtls_event now (DtlsEvent.application_data bytes) t = feed_sctp now bytes t
  dtls_event now DtlsEvent.other_dtls_event t = done tt t

  unfoldable pub dtls_events :
      Instant → Result (List ℕ) (List DtlsEvent) → DirectTunnel P → Call P (Unit {0})
  dtls_events now (err e) t = fail (config_error "dtls read: " e) t
  dtls_events now (ok events) t = for_each (dtls_event now) events t

  unfoldable pub feed_dtls : Instant → Bytes → DirectTunnel P → Call P (Unit {0})
  feed_dtls now datagram t =
      let (events, dtls) = P.dtls_read now t.remote_addr datagram t.dtls in
      dtls_events now events (record t { dtls = dtls })

  unfoldable pub deliver_payload : Result (List ℕ) Bytes → DirectTunnel P → Call P Bool
  deliver_payload (ok payload) t = done true (push_back (message payload) t)
  deliver_payload (err e) t = fail (config_error "reassemble: " e) t

  -- `read_stream`: one message of the negotiated stream.
  unfoldable pub deliver : P.Chunks → Ppi → DirectTunnel P → Call P Bool
  deliver chunks Ppi.binary_empty t = done true (push_back (message []) t)
  deliver chunks Ppi.string_empty t = done true (push_back (message []) t)
  deliver chunks Ppi.binary t = deliver_payload (P.to_payload max_message_size chunks) t
  deliver chunks Ppi.string t = deliver_payload (P.to_payload max_message_size chunks) t
  deliver chunks Ppi.other_ppi t = done true t

  unfoldable pub read_chunks : Result (List ℕ) (Option P.Chunks) → DirectTunnel P → Call P Bool
  read_chunks (err e) t = fail (config_error "sctp read: " e) t
  read_chunks (ok none) t = done false t
  read_chunks (ok (some chunks)) t = deliver chunks (P.ppi chunks) t

  unfoldable pub read_step : DirectTunnel P → Call P Bool
  read_step t = elim t.association [
    | none ↦ done false t
    | some association ↦
        let (chunks, association') = P.read_sctp t.stream_id association in
        read_chunks chunks (record t { association = some association' })
  ]

  unfoldable pub read_stream : DirectTunnel P → Call P (Unit {0})
  read_stream t = elim t.association [
    | none ↦ done tt t
    | some association ↦
        if P.has_stream t.stream_id association
        then while_ok read_step (suc (P.chunk_count t.stream_id association)) t
        else done tt t
  ]
