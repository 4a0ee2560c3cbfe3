-- ===== src/Backend/Keeps/Calls.antt =====
-- crates/rtc-tunnel-core/src/tunnel.rs: every call of a host keeps what was announced.
use rtc_tunnel.Base.{
  ℕ, refl, Bool, true, false, not, ◌&&◌, ◌||◌, Bytes, Text, Result, ok, err, after, if_holds,
  if◌then◌else◌, leb, ltb, length, ◌+◌, min, arith,
}
use rtc_tunnel.Net.{Instant, SocketAddr}
use rtc_tunnel.Event.{CloseReason, SendResult, max_message_size}
use rtc_tunnel.Trace.First.{Extends-refl}
use rtc_tunnel.Direct.Output.{usize_max}
use rtc_tunnel.Backend.Peer.{Peer}
use rtc_tunnel.Backend.State.{Tunnel, instant, maybe_open}
use rtc_tunnel.Backend.Calls.{
  taken, feed, receive, receive_deferred, finish_input_batch, timed_out, tick, sent, send_open,
  send, close, applied, apply_remote_answer, with_description, apply_remote_answer_sdp, set_remote,
  set_send_buffer_cap, negotiated_cipher_suite,
}
use rtc_tunnel.Backend.Keeps.{
  Keeps, Keeps-refl, Keeps-trans, Still-Keeps, pc-Keeps, finish-Keeps, maybe_open-Keeps,
  drain-Keeps,
}

module _ {P : Peer} where
  clock-Keeps : (now : Instant) (t : Tunnel P) → Keeps t (record t { last_now = now })
  clock-Keeps now t =
      Still-Keeps t _
        (record { epoch = refl; deadline = refl; opened = refl; finished = refl; events = refl })
        (Extends-refl t.trace)

  taken-Keeps : (r : Bool × P.Connection) (t : Tunnel P) → Keeps t (taken r t)
  unfolding taken
  taken-Keeps (true, pc) t = pc-Keeps pc t
  taken-Keeps (false, pc) t =
      Still-Keeps t _
        (record { epoch = refl; deadline = refl; opened = refl; finished = refl; events = refl })
        (Extends-refl t.trace)

  feed-Keeps : (n : ℕ) (d : Bytes) (t : Tunnel P) → Keeps t (feed n d t)
  unfolding feed
  feed-Keeps n d t =
      let t' = record t { last_now = instant t n } in
      Keeps-trans t t' _ (clock-Keeps (instant t n) t)
        (taken-Keeps (P.handle_read (instant t n) t.local_addr t.remote d t.pc) t')

  pub receive-Keeps : (n : ℕ) (d : Bytes) (t : Tunnel P) → Keeps t (receive n d t)
  unfolding receive
  receive-Keeps n d t =
      if_holds (Keeps t) t.finished (λ _. Keeps-refl t)
        (λ _. Keeps-trans t (feed n d t) _ (feed-Keeps n d t) (drain-Keeps (feed n d t)))

  pub receive_deferred-Keeps : (n : ℕ) (d : Bytes) (t : Tunnel P) → Keeps t (receive_deferred n d t)
  unfolding receive_deferred
  receive_deferred-Keeps n d t =
      let t' = record t { last_now = instant t n } in
      if_holds (Keeps t) t.finished (λ _. Keeps-refl t)
        (λ _.
          if_holds (Keeps t) (not t.opened)
            (λ _. Keeps-trans t t' _ (clock-Keeps (instant t n) t) (receive-Keeps n d t'))
            (λ _. feed-Keeps n d t))

  pub finish_input_batch-Keeps : (t : Tunnel P) → Keeps t (finish_input_batch t)
  unfolding finish_input_batch
  finish_input_batch-Keeps t =
      if_holds (Keeps t) (t.finished || not t.opened) (λ _. Keeps-refl t) (λ _. drain-Keeps t)

  timed_out-Keeps : (now : Instant) (t : Tunnel P) → Keeps t (timed_out now t)
  unfolding timed_out
  timed_out-Keeps now t =
      if_holds (Keeps t) (not t.opened && leb t.handshake_deadline now)
        (λ _. finish-Keeps CloseReason.timeout t) (λ _. drain-Keeps t)

  pub tick-Keeps : (n : ℕ) (t : Tunnel P) → Keeps t (tick n t)
  unfolding tick
  tick-Keeps n t =
      let now = instant t n in
      let u = record t { last_now = now } in
      let t' = record t { last_now = now; pc = P.handle_timeout now t.pc } in
      if_holds (Keeps t) t.finished (λ _. Keeps-refl t)
        (λ _.
          Keeps-trans t u _ (clock-Keeps now t)
            (Keeps-trans u t' _ (pc-Keeps (P.handle_timeout now t.pc) u) (timed_out-Keeps now t')))

  abbrev KeepsSecond : Tunnel P → SendResult × Tunnel P → Type 0
  KeepsSecond t r = Keeps t r.1

  sent-Keeps : (r : Bool × P.Connection) (t : Tunnel P) → KeepsSecond t (sent r t)
  unfolding sent
  sent-Keeps (true, pc) t =
      Keeps-trans t (record t { pc = pc }) _ (pc-Keeps pc t) (drain-Keeps (record t { pc = pc }))
  sent-Keeps (false, pc) t =
      Keeps-trans t (record t { pc = pc }) _ (pc-Keeps pc t) (drain-Keeps (record t { pc = pc }))

  send_open-Keeps : (m : Bytes) (t : Tunnel P) → KeepsSecond t (send_open m t)
  unfolding send_open
  send_open-Keeps m t =
      if_holds (KeepsSecond t) (ltb max_message_size (length m)) (λ _. Keeps-refl t)
        (λ _.
          if_holds (KeepsSecond t) (not (P.has_channel t.handle t.pc)) (λ _. Keeps-refl t)
            (λ _.
              if_holds (KeepsSecond t)
                (ltb t.send_buffer_cap
                  (min (usize_max P.wasm32) (P.outstanding_bytes t.handle t.pc + length m)))
                (λ _. Keeps-refl t)
                (λ _. sent-Keeps (P.send_on_channel t.handle t.last_now m t.pc) t)))

  pub send-Keeps : (m : Bytes) (t : Tunnel P) → Keeps t (send m t).1
  unfolding send
  send-Keeps m t =
      let t' = if t.opened then t else maybe_open t in
      if_holds (KeepsSecond t) t.finished (λ _. Keeps-refl t)
        (λ _.
          Keeps-trans t t' _
            (if_holds (Keeps t) t.opened (λ _. Keeps-refl t) (λ _. maybe_open-Keeps t))
            (if_holds (KeepsSecond t') t'.opened (λ _. send_open-Keeps m t') (λ _. Keeps-refl t')))

  pub close-Keeps : (t : Tunnel P) → Keeps t (close t)
  unfolding close
  close-Keeps t =
      let t' = record t { pc = P.close_connection t.pc } in
      if_holds (Keeps t) t.finished (λ _. Keeps-refl t)
        (λ _.
          Keeps-trans t t' _ (pc-Keeps (P.close_connection t.pc) t)
            (finish-Keeps CloseReason.local t'))

  pub applied-Keeps :
      (r : Result Text (Unit {0}) × P.Connection) (t : Tunnel P) → Keeps t (after (applied r t))
  unfolding applied
  applied-Keeps (ok u, pc) t =
      Keeps-trans t (record t { pc = pc }) _ (pc-Keeps pc t) (drain-Keeps (record t { pc = pc }))
  applied-Keeps (err e, pc) t = pc-Keeps pc t

  pub apply_remote_answer-Keeps :
      (d : P.Description) (t : Tunnel P) → Keeps t (after (apply_remote_answer d t))
  unfolding apply_remote_answer
  apply_remote_answer-Keeps d t = applied-Keeps (P.set_remote_description t.last_now d t.pc) t

  pub set_remote-Keeps : (a : SocketAddr) (t : Tunnel P) → Keeps t (set_remote a t)
  unfolding set_remote
  set_remote-Keeps a t = Still-Keeps t _ (ground arith) (Extends-refl t.trace)

  pub set_send_buffer_cap-Keeps : (n : ℕ) (t : Tunnel P) → Keeps t (set_send_buffer_cap n t)
  unfolding set_send_buffer_cap
  set_send_buffer_cap-Keeps n t = Still-Keeps t _ (ground arith) (Extends-refl t.trace)

  pub negotiated_cipher_suite-Keeps : (t : Tunnel P) → Keeps t (negotiated_cipher_suite t).1
  unfolding negotiated_cipher_suite
  negotiated_cipher_suite-Keeps t = pc-Keeps (P.dtls_cipher t.last_now t.pc).1 t

  described-Keeps :
      (r : Result Text P.Description) (t : Tunnel P) → Keeps t (after (with_description r t))
  unfolding with_description apply_remote_answer
  described-Keeps (ok d) t = applied-Keeps (P.set_remote_description t.last_now d t.pc) t
  described-Keeps (err e) t = Keeps-refl t

  pub apply_remote_answer_sdp-Keeps :
      (sdp : Text) (t : Tunnel P) → Keeps t (after (apply_remote_answer_sdp sdp t))
  unfolding apply_remote_answer_sdp
  apply_remote_answer_sdp-Keeps sdp t = described-Keeps (P.answer_description sdp) t
