-- ===== src/Backend/State.antt =====
-- crates/rtc-tunnel-core/src/tunnel.rs: `Tunnel`, its small methods, and `drain`.
use rtc_tunnel.Base.{
  ℕ, suc, ◌+◌, Bool, true, false, ◌&&◌, Option, none, some, List, [], ◌∷◌, ◌++◌, Outcome, done,
  after, if◌then◌else◌, while_some, while_ok, polled,
}
use rtc_tunnel.Net.{SocketAddr, Instant, from_millis, millis_since}
use rtc_tunnel.Event.{CloseReason, remote, failure, Event, send_datagram, message}
use rtc_tunnel.Trace.{HandshakeTrace, observe, is_complete}
use rtc_tunnel.Backend.Peer.{
  Peer, PeerState, PeerEvent, channel_open, channel_close, other_channel_event, connection_state,
  ice_failed, other_peer_event, PeerMessage, channel_message, other_message, TransportState,
  is_connected, is_completed, other_transport_state, Transports,
}

pub record Tunnel (P : Peer) : Type 0 where
  pub pc : P.Connection
  pub epoch : Instant
  pub last_now : Instant
  pub local_addr : SocketAddr
  pub remote : SocketAddr
  pub handle : P.ChannelId
  pub handshake_deadline : Instant
  pub send_buffer_cap : ℕ
  pub opened : Bool
  pub finished : Bool
  pub dropped_datagrams : ℕ
  pub events : List Event
  pub trace : HandshakeTrace

-- `matches!(state, Connected | Completed)`, and `matches!(state, Connected)`.
abbrev pub ice_ready : TransportState → Bool
ice_ready is_connected = true
ice_ready is_completed = true
ice_ready other_transport_state = false

abbrev pub ready : TransportState → Bool
ready is_connected = true
ready is_completed = false
ready other_transport_state = false

-- What a round of a loop that may `break` leaves; it never fails.
abbrev pub Round : Peer → Type 0
Round P = Outcome (Unit {0}) (Tunnel P) Bool

-- The phases that `sample_handshake` finds reached: ICE, DTLS and SCTP.
abbrev pub phases : Option Transports → Bool × Bool × Bool
phases none = (false, false, false)
phases (some s) = (ice_ready s.ice_state, ready s.dtls_state, ready s.sctp_state)

module _ {P : Peer} where
  abbrev pub push_back : Event → Tunnel P → Tunnel P
  push_back e t = record t { events = t.events ++ e ∷ [] }

  unfoldable pub instant : Tunnel P → ℕ → Instant
  instant t now_ms = t.epoch + from_millis now_ms

  unfoldable pub ms_since_epoch : Tunnel P → Instant → ℕ
  ms_since_epoch t at = millis_since t.epoch at

  unfoldable pub finish : CloseReason → Tunnel P → Tunnel P
  finish reason t =
      if t.finished then t else push_back (Event.closed reason) (record t { finished = true })

  unfoldable pub refresh_opened : Tunnel P → Tunnel P
  refresh_opened t =
      if P.has_channel t.handle t.pc && P.channel_is_open t.handle t.pc
      then record t { opened = true }
      else t

  -- `if self.opened { push Opened }` after the refresh.
  unfoldable pub announce_open : Tunnel P → Tunnel P
  announce_open t = if t.opened then push_back Event.opened t else t

  unfoldable pub maybe_open : Tunnel P → Tunnel P
  maybe_open t = if t.opened then t else announce_open (refresh_opened t)

  unfoldable pub on_channel_open : Tunnel P → Tunnel P
  on_channel_open t = if t.opened then t else push_back Event.opened (record t { opened = true })

  unfoldable pub on_state : PeerState → Tunnel P → Tunnel P
  on_state PeerState.connected t = maybe_open t
  on_state PeerState.failed t = finish failure t
  on_state PeerState.disconnected t = finish remote t
  on_state PeerState.closed t = finish remote t
  on_state PeerState.other_peer_state t = t

  -- The `match` of `drain` on one event of the connection.
  unfoldable pub on_event : PeerEvent → Tunnel P → Tunnel P
  on_event channel_open t = on_channel_open t
  on_event channel_close t = finish remote t
  on_event other_channel_event t = t
  on_event (connection_state state) t = on_state state t
  on_event ice_failed t = finish failure t
  on_event other_peer_event t = t

  unfoldable pub on_message : PeerMessage → Tunnel P → Tunnel P
  on_message (channel_message data_bytes) t = push_back (message data_bytes) t
  on_message other_message t = t

  unfoldable pub write_step : Tunnel P → Option (Tunnel P)
  write_step t =
      polled (P.poll_write t.pc) λ bytes pc. push_back (send_datagram bytes) (record t { pc = pc })

  unfoldable pub drain_writes : Tunnel P → Tunnel P
  drain_writes t = while_some write_step (suc (P.write_count t.pc)) t

  unfoldable pub event_step : Tunnel P → Round P
  event_step t = elim (P.poll_peer_event t.pc) [
    | none ↦ done false t
    | some (event, pc) ↦
        let t' = record t { pc = pc } in
        if t.finished then done false t' else done true (on_event event t')
  ]

  unfoldable pub read_step : Tunnel P → Round P
  read_step t = elim (P.poll_read t.pc) [
    | none ↦ done false t
    | some (tagged, pc) ↦
        let t' = record t { pc = pc } in
        if t.finished then done false t' else done true (on_message tagged t')
  ]

  unfoldable pub drain_events : Tunnel P → Tunnel P
  drain_events t = after (while_ok event_step (suc (P.event_count t.pc)) t)

  unfoldable pub drain_reads : Tunnel P → Tunnel P
  drain_reads t = after (while_ok read_step (suc (P.read_count t.pc)) t)

  unfoldable pub sample_handshake : Tunnel P → Tunnel P
  sample_handshake t =
      if is_complete t.trace
      then t
      else let (ice, dtls, sctp) = phases (P.transports t.pc) in
        record t { trace = observe (ms_since_epoch t t.last_now) ice dtls sctp t.opened t.trace }

  unfoldable pub drain : Tunnel P → Tunnel P
  drain t =
      sample_handshake (maybe_open (drain_reads (drain_writes (drain_events (drain_writes t)))))
