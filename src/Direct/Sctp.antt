-- ===== src/Direct/Sctp.antt =====
-- crates/rtc-tunnel-core/src/direct/mod.rs: the association's events, the negotiated stream, the
-- transmits, and `pump`, which runs every layer once.
pub mod Dial
pub mod Agent
pub mod Flushed
use rtc_tunnel.Base.{
  ℕ, suc, Bool, true, false, not, ◌&&◌, Option, none, some, Bytes, Result, ok, err, done, fail,
  ◌>>=◌, ◌>>◌, if◌then◌else◌, ◌==◌, while_some, polled, while_ok, for_each, Text, text,
}
use rtc_tunnel.Event.{CloseReason, config}
use rtc_tunnel.Trace.{observe_sctp}
use rtc_tunnel.Platform.{Platform, SctpEvent, Ppi, ReliabilityType, Payload, reliable, rexmit}
use rtc_tunnel.Direct.State.{DirectTunnel, Call, config_error, ms, finish, maybe_open}
use rtc_tunnel.Direct.Pump.{
  drain_ice_events, drain_ice_writes, drain_dtls_transmits, activate_dtls, read_stream,
}

-- The three flags of `drain_sctp`.
pub record Seen : Type 0 where
  pub readable : Bool
  pub connected : Bool
  pub lost : Bool

abbrev pub nothing_seen : Seen
nothing_seen = record { readable = false; connected = false; lost = false }

unfoldable pub see : ℕ → SctpEvent → Seen → Seen
see stream_id SctpEvent.sctp_connected s = record s { connected = true }
see stream_id (SctpEvent.readable id) s =
    if id == stream_id then record s { readable = true } else s
see stream_id SctpEvent.association_lost s = record s { lost = true }
see stream_id SctpEvent.other_sctp_event s = s

-- The reliability of the channel: `u16::MAX` stands for no limit on retransmissions.
unfoldable pub reliability : ℕ → ReliabilityType × ℕ
reliability max_retransmits =
    if max_retransmits == 65535 then (reliable, 0) else (rexmit, max_retransmits)

module _ (P : Platform) where
  unfoldable pub sctp_event_step : ℕ → Seen × P.Association → Option (Seen × P.Association)
  sctp_event_step stream_id (seen, association) =
      polled (P.poll association) λ event association'. (see stream_id event seen, association')

  unfoldable pub forward : Option P.Handle → P.EndpointEvent → Option P.Sctp → Option P.Sctp
  forward (some handle) event (some endpoint) = some (P.sctp_handle_event handle event endpoint)
  forward none event (some endpoint) = some endpoint
  forward handle event none = none

  unfoldable pub endpoint_event_step :
      Option P.Handle → Option P.Sctp × P.Association → Option (Option P.Sctp × P.Association)
  endpoint_event_step handle (sctp, association) =
      polled (P.poll_endpoint_event association)
        λ event association'. (forward handle event sctp, association')

module _ {P : Platform} where
  -- Both `while let` loops of `drain_sctp`: the flags seen, and the tunnel after them.
  unfoldable pub sctp_events : P.Association → DirectTunnel P → Seen × DirectTunnel P
  sctp_events association t =
      let (seen, polled) =
        while_some (sctp_event_step P t.stream_id) (suc (P.sctp_event_count association))
          (nothing_seen, association) in
      let (sctp, told) =
        while_some (endpoint_event_step P t.association_handle)
          (suc (P.endpoint_event_count polled)) (t.sctp, polled) in
      (seen, record t { sctp = sctp; association = some told })

  unfoldable pub poll_association : Option P.Association → DirectTunnel P → Seen × DirectTunnel P
  poll_association none t = (nothing_seen, t)
  poll_association (some association) t = sctp_events association t

  unfoldable pub mark_connected : Bool → DirectTunnel P → DirectTunnel P
  mark_connected connected t =
      if connected
      then record t { sctp_connected = true; trace = observe_sctp (ms t t.last_now) t.trace }
      else t

  unfoldable pub mark_lost : Bool → DirectTunnel P → DirectTunnel P
  mark_lost lost t = if lost then finish CloseReason.remote t else t

  unfoldable pub act_on_seen : Seen → DirectTunnel P → Call P (Unit {0})
  act_on_seen seen t =
      let marked = mark_lost seen.lost (mark_connected seen.connected t) in
      if seen.readable then read_stream marked else done tt marked

  unfoldable pub drain_sctp : DirectTunnel P → Call P (Unit {0})
  drain_sctp t = let (seen, polled) = poll_association t.association t in act_on_seen seen polled

  -- `open_stream`
  unfoldable pub params_set :
      Result Text (Unit {0}) × P.Association → DirectTunnel P → Call P (Unit {0})
  params_set (ok _, association) t = done tt (record t { association = some association })
  params_set (err e, association) t =
      fail (config_error "reliability: " e) (record t { association = some association })

  unfoldable pub stream_opened :
      Result Text (Unit {0}) × P.Association → DirectTunnel P → Call P (Unit {0})
  stream_opened (ok _, association) t =
      let (kind, value) = reliability t.max_retransmits in
      params_set (P.set_reliability_params t.stream_id (not t.ordered) kind value association) t
  stream_opened (err e, association) t =
      fail (config_error "open stream: " e) (record t { association = some association })

  unfoldable pub open_stream : DirectTunnel P → Call P (Unit {0})
  open_stream t =
      let t' = record t { channel_dialed = true } in
      elim t'.association [
        | none ↦ fail (config (text "sctp association is not established")) t'
        | some association ↦ stream_opened (P.open_stream t'.stream_id Ppi.binary association) t'
      ]

  unfoldable pub drain_channel : DirectTunnel P → Call P (Unit {0})
  drain_channel t = if t.sctp_connected && not t.channel_dialed then open_stream t else done tt t

  -- `drain_sctp_transmits`
  unfoldable pub raw_written : Result Text (Unit {0}) × P.Dtls → DirectTunnel P → Call P (Unit {0})
  raw_written (ok _, dtls) t = done tt (record t { dtls = dtls })
  raw_written (err e, dtls) t = fail (config_error "dtls write: " e) (record t { dtls = dtls })

  unfoldable pub write_raw : Bytes → DirectTunnel P → Call P (Unit {0})
  write_raw raw t = raw_written (P.dtls_write t.last_now t.remote_addr raw t.dtls) t

  unfoldable pub write_payload : Payload → DirectTunnel P → Call P (Unit {0})
  write_payload (Payload.raw_encode raws) t =
      if t.dtls_started then for_each write_raw raws t else done tt t
  write_payload Payload.partial_decode t = done tt t

  unfoldable pub transmit_step : DirectTunnel P → Call P Bool
  transmit_step t = elim t.association [
    | none ↦ done false t
    | some association ↦ elim (P.poll_transmit t.last_now association) [
      | none ↦ done false t
      | some (payload, association') ↦
          write_payload payload (record t { association = some association' }) >>= λ _. done true
    ]
  ]

  unfoldable pub drain_sctp_transmits : DirectTunnel P → Call P (Unit {0})
  drain_sctp_transmits t = elim t.association [
    | none ↦ done tt t
    | some association ↦ while_ok transmit_step (suc (P.transmit_count t.last_now association)) t
  ]

  -- `pump`
  unfoldable pub start_dtls : DirectTunnel P → DirectTunnel P
  start_dtls t = if P.has_selected_pair t.ice && not t.dtls_started then activate_dtls t else t

  unfoldable pub drain_secured : DirectTunnel P → Call P (Unit {0})
  drain_secured t = drain_sctp t >> drain_channel >> drain_sctp_transmits >> λ t'.
      done tt (drain_dtls_transmits t')

  unfoldable pub pump : DirectTunnel P → Call P (Unit {0})
  pump t =
      let started = start_dtls (drain_ice_writes (drain_ice_events t)) in
      (if started.dtls_started then drain_secured started else done tt started) >> λ t'.
      done tt (maybe_open t')
