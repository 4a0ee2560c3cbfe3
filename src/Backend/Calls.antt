-- ===== src/Backend/Calls.antt =====
-- crates/rtc-tunnel-core/src/tunnel.rs: what a host calls on a tunnel.
pub mod Deferred
pub mod Sending
use rtc_tunnel.Base.{
  ℕ, ◌+◌, ◌-◌, ◌^◌, min, Bool, true, false, not, ◌&&◌, ◌||◌, Option, none, some, List, [], ◌∷◌,
  Bytes, Text, length, Result, ok, err, Outcome, done, fail, if◌then◌else◌, ltb, leb, is_empty,
}
use rtc_tunnel.Net.{SocketAddr, Instant}
use rtc_tunnel.Event.{
  CloseReason, Event, TunnelError, peer_connection, SendResult, backpressure, too_large, not_open,
  max_message_size,
}
use rtc_tunnel.Direct.Output.{usize_max, pop_front, earliest}
use rtc_tunnel.Backend.Peer.{Peer}
use rtc_tunnel.Backend.State.{Tunnel, instant, ms_since_epoch, finish, maybe_open, drain}

-- `.filter(|cipher| !cipher.is_empty())`
abbrev pub filled : Option Text → Option Text
filled none = none
filled (some name) = if is_empty name then none else some name

module _ {P : Peer} where
  -- What the connection made of a datagram; one that it rejects is counted, saturating.
  unfoldable pub taken : Bool × P.Connection → Tunnel P → Tunnel P
  taken (true, pc) t = record t { pc = pc }
  taken (false, pc) t = record t {
    pc = pc;
    dropped_datagrams = min (2 ^ 64 - 1) (t.dropped_datagrams + 1);
  }

  unfoldable pub feed : ℕ → Bytes → Tunnel P → Tunnel P
  feed now_ms datagram t =
      let now = instant t now_ms in
      taken (P.handle_read now t.local_addr t.remote datagram t.pc) (record t { last_now = now })

  unfoldable pub receive : ℕ → Bytes → Tunnel P → Tunnel P
  receive now_ms datagram t = if t.finished then t else drain (feed now_ms datagram t)

  unfoldable pub receive_deferred : ℕ → Bytes → Tunnel P → Tunnel P
  receive_deferred now_ms datagram t =
      if t.finished
      then t
      else if not t.opened
      then receive now_ms datagram (record t { last_now = instant t now_ms })
      else feed now_ms datagram t

  unfoldable pub finish_input_batch : Tunnel P → Tunnel P
  finish_input_batch t = if t.finished || not t.opened then t else drain t

  unfoldable pub timed_out : Instant → Tunnel P → Tunnel P
  timed_out now t =
      if not t.opened && leb t.handshake_deadline now then finish CloseReason.timeout t else drain t

  unfoldable pub tick : ℕ → Tunnel P → Tunnel P
  tick now_ms t =
      if t.finished
      then t
      else let now = instant t now_ms in
        timed_out now (record t { last_now = now; pc = P.handle_timeout now t.pc })

  unfoldable pub sent : Bool × P.Connection → Tunnel P → SendResult × Tunnel P
  sent (true, pc) t = (SendResult.accepted, drain (record t { pc = pc }))
  sent (false, pc) t = (not_open, drain (record t { pc = pc }))

  unfoldable pub send_open : Bytes → Tunnel P → SendResult × Tunnel P
  send_open bytes t =
      if ltb max_message_size (length bytes)
      then (too_large, t)
      else if not (P.has_channel t.handle t.pc)
      then (not_open, t)
      else if ltb t.send_buffer_cap
          (min (usize_max P.wasm32) (P.outstanding_bytes t.handle t.pc + length bytes))
      then (backpressure, t)
      else sent (P.send_on_channel t.handle t.last_now bytes t.pc) t

  unfoldable pub send : Bytes → Tunnel P → SendResult × Tunnel P
  send bytes t =
      if t.finished
      then (not_open, t)
      else let t' = if t.opened then t else maybe_open t in
        if t'.opened then send_open bytes t' else (not_open, t')

  unfoldable pub close : Tunnel P → Tunnel P
  close t =
      if t.finished then t else finish CloseReason.local (record t { pc = P.close_connection t.pc })

  unfoldable pub poll_event : Tunnel P → Option Event × Tunnel P
  poll_event t = let (e, rest) = pop_front t.events in (e, record t { events = rest })

  unfoldable pub next_deadline : Tunnel P → Option ℕ
  next_deadline t =
      if t.finished
      then none
      else elim (earliest (if t.opened then none else some t.handshake_deadline)
          (P.poll_timeout t.pc)) [ none ↦ none | some at ↦ some (ms_since_epoch t at) ]

  unfoldable pub set_remote : SocketAddr → Tunnel P → Tunnel P
  set_remote remote t = record t { remote = remote }

  unfoldable pub set_send_buffer_cap : ℕ → Tunnel P → Tunnel P
  set_send_buffer_cap cap t = record t { send_buffer_cap = cap }

  unfoldable pub offer_sdp : Tunnel P → Option Text
  offer_sdp t = P.local_description t.pc

  unfoldable pub answer_sdp : Tunnel P → Option Text
  answer_sdp t = P.local_description t.pc

  unfoldable pub buffered_bytes : Tunnel P → ℕ
  buffered_bytes t = if P.has_channel t.handle t.pc then P.outstanding_bytes t.handle t.pc else 0

  unfoldable pub negotiated_cipher_suite : Tunnel P → Option Text × Tunnel P
  negotiated_cipher_suite t =
      let (cipher, pc) = P.dtls_cipher t.last_now t.pc in (filled cipher, record t { pc = pc })

  -- `apply_remote_answer`
  unfoldable pub applied :
      Result Text (Unit {0}) × P.Connection → Tunnel P → Outcome TunnelError (Tunnel P) (Unit {0})
  applied (ok _, pc) t = done tt (drain (record t { pc = pc }))
  applied (err e, pc) t = fail (peer_connection e) (record t { pc = pc })

  unfoldable pub apply_remote_answer :
      P.Description → Tunnel P → Outcome TunnelError (Tunnel P) (Unit {0})
  apply_remote_answer answer t = applied (P.set_remote_description t.last_now answer t.pc) t

  unfoldable pub with_description :
      Result Text P.Description → Tunnel P → Outcome TunnelError (Tunnel P) (Unit {0})
  with_description (ok answer) t = apply_remote_answer answer t
  with_description (err e) t = fail (peer_connection e) t

  unfoldable pub apply_remote_answer_sdp :
      Text → Tunnel P → Outcome TunnelError (Tunnel P) (Unit {0})
  apply_remote_answer_sdp sdp t = with_description (P.answer_description sdp) t
