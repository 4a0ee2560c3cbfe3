-- ===== src/Direct/Output.antt =====
-- crates/rtc-tunnel-core/src/direct/mod.rs: messages that the host sends, and what it reads back.
pub mod Sending
pub mod Messages
use rtc_tunnel.Base.{
  ℕ, ◌+◌, ◌-◌, ◌^◌, min, Bool, true, false, not, Option, none, some, List, [], ◌∷◌, Bytes, Text, ok,
  err, done, fail, after, if◌then◌else◌, ltb, length,
}
use rtc_tunnel.Net.{SocketAddr, Instant}
use rtc_tunnel.Event.{
  CloseReason, Event, SendResult, backpressure, too_large, not_open, max_message_size,
}
use rtc_tunnel.Platform.{Platform, Ppi}
use rtc_tunnel.Direct.State.{DirectTunnel, Call, with_ice, ms, finish}
use rtc_tunnel.Direct.Pump.{drain_dtls_transmits}
use rtc_tunnel.Direct.Sctp.{drain_channel, drain_sctp_transmits}

-- The payload that carries a message: SCTP has no empty user message.
unfoldable pub framed : Bytes → Ppi × Bytes
framed [] = (Ppi.binary_empty, 0 ∷ [])
framed (b ∷ bs) = (Ppi.binary, b ∷ bs)

-- `usize::MAX` in the saturating sum of `send`, on the 32-bit target.
abbrev pub usize_max : Bool → ℕ
usize_max true = 2 ^ 32 - 1
usize_max false = 2 ^ 64 - 1

-- `events.pop_front()`
unfoldable pub pop_front : List Event → Option Event × List Event
pop_front [] = (none, [])
pop_front (e ∷ es) = (some e, es)

-- `best.map_or(t, |b| b.min(t))` where there is a `t`.
pub earliest : Option Instant → Option Instant → Option Instant
earliest best none = best
earliest none (some t) = some t
earliest (some b) (some t) = some (min b t)

unfoldable pub buffered : (P : Platform) → ℕ → P.Association → ℕ
buffered P stream_id association = elim (P.buffered_amount stream_id association) [
  | ok n ↦ n
  | err _ ↦ 0
]

module _ {P : Platform} where
  unfoldable pub flush : DirectTunnel P → DirectTunnel P
  flush t = drain_dtls_transmits (after (drain_sctp_transmits (after (drain_channel t))))

  unfoldable pub written : Bool × P.Association → DirectTunnel P → SendResult × DirectTunnel P
  written (true, association) t =
      (SendResult.accepted, flush (record t { association = some association }))
  written (false, association) t = (not_open, record t { association = some association })

  -- `buffered.saturating_add(data.len()) > cap`
  unfoldable pub over_cap : Bytes → P.Association → DirectTunnel P → Bool
  over_cap bytes association t =
      ltb t.send_buffer_cap
        (min (usize_max P.wasm32) (buffered P t.stream_id association + length bytes))

  unfoldable pub send_on : P.Association → Bytes → DirectTunnel P → SendResult × DirectTunnel P
  send_on association bytes t =
      if not (P.has_stream t.stream_id association)
      then (not_open, t)
      else if over_cap bytes association t
      then (backpressure, t)
      else if not (P.is_writable t.stream_id association)
      then (not_open, t)
      else let (ppi, payload) = framed bytes in
        written (P.write_chunk_with_ppi t.stream_id payload ppi association) t

  unfoldable pub send : Bytes → DirectTunnel P → SendResult × DirectTunnel P
  send bytes t =
      if t.finished
      then (not_open, t)
      else if not t.opened
      then (not_open, t)
      else if ltb max_message_size (length bytes)
      then (too_large, t)
      else elim t.association [
        | none ↦ (not_open, t)
        | some association ↦ send_on association bytes t
      ]

  unfoldable pub close : DirectTunnel P → DirectTunnel P
  close t =
      if t.finished then t else finish CloseReason.local (record t { ice = P.ice_close t.ice })

  unfoldable pub poll_event : DirectTunnel P → Option Event × DirectTunnel P
  poll_event t = let (e, rest) = pop_front t.events in (e, record t { events = rest })

  unfoldable association_deadline : DirectTunnel P → Option Instant
  association_deadline t = elim t.association [ none ↦ none | some a ↦ P.poll_timeout a ]

  pub best_deadline : DirectTunnel P → Option Instant
  best_deadline t =
      let handshake = if t.opened then none else some t.handshake_deadline in
      let with_ice = earliest handshake (P.ice_poll_timeout t.ice) in
      let with_dtls =
        if t.dtls_started
        then earliest with_ice (P.dtls_poll_timeout t.remote_addr t.dtls)
        else with_ice in
      earliest with_dtls (association_deadline t)

  unfoldable pub next_deadline : DirectTunnel P → Option ℕ
  next_deadline t =
      if t.finished then none else elim (best_deadline t) [ none ↦ none | some at ↦ some (ms t at) ]

  unfoldable pub set_remote : SocketAddr → DirectTunnel P → DirectTunnel P
  set_remote remote t = record t { remote_addr = remote }

  unfoldable pub set_remote_ice_credentials : Text → Text → DirectTunnel P → Call P (Unit {0})
  set_remote_ice_credentials ufrag pwd t =
      with_ice "remote credentials: " (P.set_remote_credentials ufrag pwd t.ice) t

  unfoldable pub set_send_buffer_cap : ℕ → DirectTunnel P → DirectTunnel P
  set_send_buffer_cap cap t = record t { send_buffer_cap = cap }

  unfoldable pub buffered_bytes : DirectTunnel P → ℕ
  buffered_bytes t = elim t.association [
    | none ↦ 0
    | some a ↦ if P.has_stream t.stream_id a then buffered P t.stream_id a else 0
  ]

  unfoldable pub negotiated_cipher_suite : DirectTunnel P → Option Text
  negotiated_cipher_suite t = P.dtls_cipher_suite t.remote_addr t.dtls
