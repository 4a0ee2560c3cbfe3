-- ===== src/Backend/Calls/Deferred.antt =====
-- crates/rtc-tunnel-core/src/tunnel.rs: deferred datagrams, and the end of the handshake.
use rtc_tunnel.Base.{
  if_holds, if◌then◌else◌, ℕ, ◌≤◌, ◌≡◌, refl, Bool, true, false, ◌⊎◌, inl, inr, Bytes, arith,
  Bool-cases,
}
use rtc_tunnel.Backend.Peer.{Peer}
use rtc_tunnel.Backend.State.{Tunnel, instant, finish}
use rtc_tunnel.Backend.Keeps.Calls.{tick-Keeps}
use rtc_tunnel.Backend.Calls.{
  taken, feed, receive, receive_deferred, finish_input_batch, timed_out, tick,
}

module _ {P : Peer} where
  taken-flags :
      (r : Bool × P.Connection) (t : Tunnel P)
      → ((taken r t).opened ≡ t.opened) × ((taken r t).finished ≡ t.finished)
  unfolding taken
  taken-flags (true, pc) t = (refl, refl)
  taken-flags (false, pc) t = (refl, refl)

  -- Over the peer connection too, a deferred datagram, with the end of its batch if the channel had
  -- opened, amounts to a received one.
  pub backend_deferred-eq-receive :
      (n : ℕ) (d : Bytes) (t : Tunnel P)
      → (if t.opened then finish_input_batch (receive_deferred n d t) else receive_deferred n d t)
        ≡ receive n d t
  unfolding receive_deferred receive finish_input_batch feed instant
  backend_deferred-eq-receive n d t =
      let now = instant t n in
      let k =
        taken-flags (P.handle_read now t.local_addr t.remote d t.pc)
          (record t { last_now = now }) in
      if_holds (λ u. u ≡ receive n d t) t.opened (λ o. ground (arith, k.0, k.1))
        (λ o. ground (arith, k.0, k.1))

  -- A tick of the tunnel over the peer connection that falls on or after the handshake deadline leaves
  -- it open or finished: after the tick, one of the two flags is set.
  pub backend_tick_decides :
      (n : ℕ) (t : Tunnel P)
      → t.handshake_deadline ≤ instant t n
      → ((tick n t).opened ≡ true) ⊎ ((tick n t).finished ≡ true)
  unfolding tick timed_out finish
  backend_tick_decides n t h = elim (Bool-cases t.opened) [
    | inl o ↦ inl ((tick-Keeps n t).opened_stays o)
    | inr o ↦ inr (ground arith)
  ]
