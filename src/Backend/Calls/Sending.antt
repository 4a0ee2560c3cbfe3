-- ===== src/Backend/Calls/Sending.antt =====
-- crates/rtc-tunnel-core/src/tunnel.rs: when `send` takes a message, and how far off `next_deadline`
-- may be.
use rtc_tunnel.Base.{
  ℕ, ◌+◌, ◌-◌, ◌*◌, ◌^◌, ◌≤◌, ◌<◌, min, ◌≡◌, Bool, true, false, none, some, Bytes, arith, length,
  if◌then◌else◌, if_holds, refl,
}
use rtc_tunnel.Event.{accepted, max_message_size}
use rtc_tunnel.Direct.Output.{usize_max}
use rtc_tunnel.Direct.Output.Sending.{earliest-Within, timed}
use rtc_tunnel.Backend.Peer.{Peer}
use rtc_tunnel.Backend.State.{Tunnel, maybe_open, ms_since_epoch}
use rtc_tunnel.Backend.Calls.{sent, send_open, send, next_deadline}

module _ {P : Peer} where
  -- The tunnel as `send` finds it, once it has looked whether the channel is open.
  abbrev pub looked : Tunnel P → Tunnel P
  looked t = if t.opened then t else maybe_open t

  -- What holds of an open tunnel and a message when the message is taken.
  pub record Sendable (m : Bytes) (t : Tunnel P) : Type 0 where
    pub is_open : t.opened ≡ true
    pub fits : length m ≤ max_message_size
    pub channel : P.has_channel t.handle t.pc ≡ true
    pub room :
        min (usize_max P.wasm32) (P.outstanding_bytes t.handle t.pc + length m) ≤ t.send_buffer_cap
    pub writes : (P.send_on_channel t.handle t.last_now m t.pc).0 ≡ true

  sent-accepted : (r : Bool × P.Connection) (t : Tunnel P) → (sent r t).0 ≡ accepted → r.0 ≡ true
  unfolding sent
  sent-accepted (true, pc) t h = refl
  sent-accepted (false, pc) t h = cc

  send_open-accepted :
      (m : Bytes) (t : Tunnel P) → t.opened ≡ true → (send_open m t).0 ≡ accepted → Sendable m t
  unfolding send_open
  send_open-accepted m t o h =
      ground (arith, sent-accepted (P.send_on_channel t.handle t.last_now m t.pc) t)

  -- Over the peer connection, a message is accepted only if the tunnel has not finished and, once
  -- `send` has looked for it, the channel is open, and if the message is at most the maximum size,
  -- the bytes outstanding with the message's stay within the cap and the channel takes the write.
  pub backend_send-accepted :
      (m : Bytes) (t : Tunnel P)
      → (send m t).0 ≡ accepted
      → (t.finished ≡ false) × Sendable m (looked t)
  unfolding send
  backend_send-accepted m t h =
      (ground arith, send_open-accepted m (looked t) (ground arith) (ground arith))

  -- Over the peer connection too, until the channel opens there is a next deadline, and it is no
  -- later than the handshake's (where the handshake's reading fits the counter).
  pub backend_next_deadline-le :
      (t : Tunnel P)
      → t.finished ≡ false
      → t.opened ≡ false
      → t.handshake_deadline - t.epoch < 2 ^ 64 * 1_000_000
      → (d : ℕ) × (next_deadline t ≡ some d) × (d ≤ ms_since_epoch t t.handshake_deadline)
  unfolding next_deadline ms_since_epoch
  backend_next_deadline-le t f o w =
      let d = t.handshake_deadline in
      if_holds (λ r. (n : ℕ) × (r ≡ some n) × (n ≤ ms_since_epoch t d)) t.finished
        (λ h. absurd (cc))
        (λ _.
          timed t.epoch d _
            (earliest-Within d (if t.opened then none else some d) (P.poll_timeout t.pc)
              (d, rw o, omega arith))
            w)
