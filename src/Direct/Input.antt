-- ===== src/Direct/Input.antt =====
-- crates/rtc-tunnel-core/src/direct/mod.rs: datagrams and time that the host feeds in.
pub mod Batch
pub mod Ignored
use rtc_tunnel.Base.{
  ℕ, ◌+◌, ◌-◌, ◌^◌, min, Bool, true, not, ◌&&◌, ◌||◌, none, some, Bytes, after, succeeds,
  if◌then◌else◌, leb,
}
use rtc_tunnel.Net.{Instant}
use rtc_tunnel.Event.{CloseReason}
use rtc_tunnel.Platform.{Platform}
use rtc_tunnel.Direct.State.{DirectTunnel, Call, is_stun, is_dtls, instant, finish}
use rtc_tunnel.Direct.Pump.{activate_dtls, feed_dtls}
use rtc_tunnel.Direct.Sctp.{pump}

module _ {P : Platform} where
  -- `ingest`: what is left of the tunnel, and whether the layer took the datagram.
  unfoldable pub ingest_stun : Instant → Bytes → DirectTunnel P → Bool × DirectTunnel P
  ingest_stun now datagram t =
      let (taken, ice) = P.ice_handle_read now t.local_addr t.remote_addr datagram t.ice in
      (taken, record t { ice = ice })

  unfoldable pub fed_dtls : Call P (Unit {0}) → Bool × DirectTunnel P
  fed_dtls fed = (succeeds fed, after fed)

  unfoldable pub ingest_dtls : Instant → Bytes → DirectTunnel P → Bool × DirectTunnel P
  ingest_dtls now datagram t =
      if P.has_selected_pair t.ice
      then fed_dtls (feed_dtls now datagram (if t.dtls_started then t else activate_dtls t))
      else (true, t)

  unfoldable pub classify : Instant → Bytes → DirectTunnel P → Bool × DirectTunnel P
  classify now datagram t =
      if is_stun datagram
      then ingest_stun now datagram t
      else if is_dtls datagram
      then ingest_dtls now datagram t
      else (true, t)

  -- `dropped_datagrams.saturating_add(1)`
  unfoldable pub count_drop : Bool × DirectTunnel P → DirectTunnel P
  count_drop (taken, t) =
      if taken
      then t
      else record t { dropped_datagrams = min (2 ^ 64 - 1) (t.dropped_datagrams + 1) }

  unfoldable pub ingest : Instant → Bytes → DirectTunnel P → DirectTunnel P
  ingest now datagram t = count_drop (classify now datagram t)

  -- The clock reading of a call, and the datagram taken at it.
  unfoldable pub take_in : ℕ → Bytes → DirectTunnel P → DirectTunnel P
  take_in now_ms datagram t =
      let now = instant t now_ms in ingest now datagram (record t { last_now = now })

  unfoldable pub receive : ℕ → Bytes → DirectTunnel P → DirectTunnel P
  receive now_ms datagram t = if t.finished then t else after (pump (take_in now_ms datagram t))

  unfoldable pub receive_deferred : ℕ → Bytes → DirectTunnel P → DirectTunnel P
  receive_deferred now_ms datagram t =
      if t.finished
      then t
      else let fed = take_in now_ms datagram t in if fed.opened then fed else after (pump fed)

  unfoldable pub finish_input_batch : DirectTunnel P → DirectTunnel P
  finish_input_batch t = if t.finished || not t.opened then t else after (pump t)

  unfoldable pub time_out_association : Instant → DirectTunnel P → DirectTunnel P
  time_out_association now t = elim t.association [
    | none ↦ t
    | some association ↦ record t { association = some (P.handle_timeout now association) }
  ]

  -- The timeouts of the three layers in `tick`.
  unfoldable pub time_out : Instant → DirectTunnel P → DirectTunnel P
  time_out now t =
      let iced = record t { last_now = now; ice = P.ice_handle_timeout now t.ice } in
      let secured =
        if iced.dtls_started
        then record iced { dtls = P.dtls_handle_timeout iced.remote_addr now iced.dtls }
        else iced in
      time_out_association now secured

  -- The deadline check at the end of `tick`.
  unfoldable pub expire : Instant → DirectTunnel P → DirectTunnel P
  expire now t =
      if not t.opened && leb t.handshake_deadline now then finish CloseReason.timeout t else t

  unfoldable pub tick : ℕ → DirectTunnel P → DirectTunnel P
  tick now_ms t =
      if t.finished
      then t
      else let now = instant t now_ms in expire now (after (pump (time_out now t)))
