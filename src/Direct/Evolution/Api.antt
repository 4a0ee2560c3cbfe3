-- ===== src/Direct/Evolution/Api.antt =====
-- crates/rtc-tunnel-core/src/direct/mod.rs: every call of the host but `poll_event` evolves the
-- tunnel.
use rtc_tunnel.Base.{
  ℕ, String, ◌≡◌, Bool, true, false, not, ◌&&◌, ◌||◌, some, is_some, Bytes, Text, Result, ok, err,
  after, arith, if◌then◌else◌, length, ltb, leb, if_holds, option_holds, inl, refl,
}
use rtc_tunnel.Net.{SocketAddr, Instant}
use rtc_tunnel.Event.{CloseReason, SendResult, max_message_size}
use rtc_tunnel.Platform.{Platform}
use rtc_tunnel.Direct.State.{DirectTunnel, is_stun, is_dtls, instant, with_ice}
use rtc_tunnel.Trace.First.{Extends-refl}
use rtc_tunnel.Direct.Change.{
  Evolves, Evolves-refl, Evolves-trans, IsValid, Plumbing-Evolves, Quiet-Evolves,
}
use rtc_tunnel.Direct.Pump.{activate_dtls}
use rtc_tunnel.Direct.Sctp.{drain_channel, drain_sctp_transmits, pump}
use rtc_tunnel.Direct.Input.{
  ingest_stun, fed_dtls, ingest_dtls, classify, count_drop, ingest, take_in, receive,
  receive_deferred, finish_input_batch, time_out_association, time_out, expire, tick,
}
use rtc_tunnel.Direct.Output.{
  flush, written, send_on, send, close, set_remote, set_remote_ice_credentials, set_send_buffer_cap,
  over_cap, framed,
}
use rtc_tunnel.Direct.Sdp.{apply_remote_answer_sdp, parse_answer_fingerprint}
use rtc_tunnel.Direct.Evolution.Finish.{finish-Evolves}
use rtc_tunnel.Direct.Evolution.Drains.{
  drain_dtls_transmits-Evolves, dtls_set-Evolves, ice_set-Evolves,
}
use rtc_tunnel.Direct.Evolution.Dtls.{activate_dtls-Evolves, feed_dtls-Evolves, handled-Evolves}
use rtc_tunnel.Direct.Evolution.Sctp.{
  drain_channel-Evolves, drain_sctp_transmits-Evolves, pump-Evolves,
}

module _ {P : Platform} where
  -- What a call that also returns a value leaves.
  abbrev Second : (A : Type 0) → DirectTunnel P → A × DirectTunnel P → Type 0
  Second A t r = Evolves t r.1

  ingest_dtls-Evolves :
      (now : Instant) (d : Bytes) (t : DirectTunnel P) → Evolves t (ingest_dtls now d t).1
  unfolding ingest_dtls fed_dtls
  ingest_dtls-Evolves now d t =
      if_holds (Second Bool t) (P.has_selected_pair t.ice)
        (λ _.
          let active = if t.dtls_started then t else activate_dtls t in
          Evolves-trans t active _
            (if_holds (Evolves t) t.dtls_started (λ _. Evolves-refl t)
              (λ _. activate_dtls-Evolves t))
            (feed_dtls-Evolves now d active))
        (λ _. Evolves-refl t)

  classify-Evolves :
      (now : Instant) (d : Bytes) (t : DirectTunnel P) → Evolves t (classify now d t).1
  unfolding classify ingest_stun
  classify-Evolves now d t =
      if_holds (Second Bool t) (is_stun d) (λ _. ice_set-Evolves _ t)
        (λ _.
          if_holds (Second Bool t) (is_dtls d) (λ _. ingest_dtls-Evolves now d t)
            (λ _. Evolves-refl t))

  dropped-Evolves : (n : ℕ) (t : DirectTunnel P) → Evolves t (record t { dropped_datagrams = n })
  dropped-Evolves n t = Plumbing-Evolves t _ (ground arith)

  clocked-Evolves : (n : Instant) (t : DirectTunnel P) → Evolves t (record t { last_now = n })
  clocked-Evolves n t = Plumbing-Evolves t _ (ground arith)

  ingest-Evolves : (now : Instant) (d : Bytes) (t : DirectTunnel P) → Evolves t (ingest now d t)
  unfolding ingest count_drop
  ingest-Evolves now d t =
      let (taken, u) = classify now d t in
      Evolves-trans t u _ (classify-Evolves now d t)
        (if_holds (Evolves u) taken (λ _. Evolves-refl u) (λ _. dropped-Evolves _ u))

  take_in-Evolves : (now_ms : ℕ) (d : Bytes) (t : DirectTunnel P) → Evolves t (take_in now_ms d t)
  unfolding take_in
  take_in-Evolves now_ms d t =
      let now = instant t now_ms in
      Evolves-trans t (record t { last_now = now }) _ (clocked-Evolves now t)
        (ingest-Evolves now d (record t { last_now = now }))

  pub receive-Evolves :
      (now_ms : ℕ) (d : Bytes) (t : DirectTunnel P) → Evolves t (receive now_ms d t)
  unfolding receive
  receive-Evolves now_ms d t =
      if_holds (Evolves t) t.finished (λ _. Evolves-refl t)
        (λ _.
          Evolves-trans t (take_in now_ms d t) _ (take_in-Evolves now_ms d t)
            (pump-Evolves (take_in now_ms d t)))

  pub receive_deferred-Evolves :
      (now_ms : ℕ) (d : Bytes) (t : DirectTunnel P) → Evolves t (receive_deferred now_ms d t)
  unfolding receive_deferred
  receive_deferred-Evolves now_ms d t =
      let fed = take_in now_ms d t in
      if_holds (Evolves t) t.finished (λ _. Evolves-refl t)
        (λ _.
          Evolves-trans t fed _ (take_in-Evolves now_ms d t)
            (if_holds (Evolves fed) fed.opened (λ _. Evolves-refl fed) (λ _. pump-Evolves fed)))

  pub finish_input_batch-Evolves : (t : DirectTunnel P) → Evolves t (finish_input_batch t)
  unfolding finish_input_batch
  finish_input_batch-Evolves t =
      if_holds (Evolves t) (t.finished || not t.opened) (λ _. Evolves-refl t) (λ _. pump-Evolves t)

  time_out_association-Evolves :
      (now : Instant) (t : DirectTunnel P) → Evolves t (time_out_association now t)
  unfolding time_out_association
  time_out_association-Evolves now t =
      option_holds (Evolves t) t.association (λ _. Evolves-refl t)
        (λ a q. handled-Evolves (P.handle_timeout now a) t (rw q))

  iced-Evolves :
      (n : Instant) (a : P.Agent) (t : DirectTunnel P)
      → Evolves t (record t { last_now = n; ice = a })
  iced-Evolves n a t = Plumbing-Evolves t _ (ground arith)

  pub time_out-Evolves : (now : Instant) (t : DirectTunnel P) → Evolves t (time_out now t)
  unfolding time_out
  time_out-Evolves now t =
      let iced = record t { last_now = now; ice = P.ice_handle_timeout now t.ice } in
      let d = P.dtls_handle_timeout iced.remote_addr now iced.dtls in
      let secured = if iced.dtls_started then record iced { dtls = d } else iced in
      Evolves-trans t iced _ (iced-Evolves now _ t) (
        Evolves-trans iced secured _
          (if_holds (Evolves iced) iced.dtls_started (λ _. dtls_set-Evolves d iced)
            (λ _. Evolves-refl iced))
          (time_out_association-Evolves now secured))

  pub expire-Evolves : (now : Instant) (t : DirectTunnel P) → Evolves t (expire now t)
  unfolding expire
  expire-Evolves now t =
      if_holds (Evolves t) (not t.opened && leb t.handshake_deadline now)
        (λ _. finish-Evolves CloseReason.timeout t) (λ _. Evolves-refl t)

  pub tick-Evolves : (now_ms : ℕ) (t : DirectTunnel P) → Evolves t (tick now_ms t)
  unfolding tick
  tick-Evolves now_ms t =
      let now = instant t now_ms in
      let late = time_out now t in
      let pumped = after (pump late) in
      if_holds (Evolves t) t.finished (λ _. Evolves-refl t)
        (λ _.
          Evolves-trans t late _ (time_out-Evolves now t)
            (Evolves-trans late pumped _ (pump-Evolves late) (expire-Evolves now pumped)))

  flush-Evolves : (t : DirectTunnel P) → Evolves t (flush t)
  unfolding flush
  flush-Evolves t =
      let dialed = after (drain_channel t) in
      let sent = after (drain_sctp_transmits dialed) in
      Evolves-trans t dialed _ (drain_channel-Evolves t) (
        Evolves-trans dialed sent _ (drain_sctp_transmits-Evolves dialed)
          (drain_dtls_transmits-Evolves sent))

  written-Evolves :
      (r : Bool × P.Association) (t : DirectTunnel P)
      → is_some t.association ≡ true
      → Evolves t (written r t).1
  unfolding written
  written-Evolves (true, a) t h =
      let t' = record t { association = some a } in
      Evolves-trans t t' _ (handled-Evolves a t h) (flush-Evolves t')
  written-Evolves (false, a) t h = handled-Evolves a t h

  send_on-Evolves :
      (a : P.Association) (bytes : Bytes) (t : DirectTunnel P)
      → is_some t.association ≡ true
      → Evolves t (send_on a bytes t).1
  unfolding send_on
  send_on-Evolves a bytes t h =
      if_holds (Second SendResult t) (not (P.has_stream t.stream_id a)) (λ _. Evolves-refl t)
        (λ _.
          if_holds (Second SendResult t) (over_cap bytes a t) (λ _. Evolves-refl t)
            (λ _.
              if_holds (Second SendResult t) (not (P.is_writable t.stream_id a))
                (λ _. Evolves-refl t)
                (λ _.
                  let (ppi, payload) = framed bytes in
                  written-Evolves (P.write_chunk_with_ppi t.stream_id payload ppi a) t h)))

  pub send-Evolves : (bytes : Bytes) (t : DirectTunnel P) → Evolves t (send bytes t).1
  unfolding send
  send-Evolves bytes t =
      if_holds (Second SendResult t) t.finished (λ _. Evolves-refl t)
        (λ _.
          if_holds (Second SendResult t) (not t.opened) (λ _. Evolves-refl t)
            (λ _.
              if_holds (Second SendResult t) (ltb max_message_size (length bytes))
                (λ _. Evolves-refl t)
                (λ _.
                  option_holds (Second SendResult t) t.association (λ _. Evolves-refl t)
                    (λ a q. send_on-Evolves a bytes t (rw q)))))

  pub close-Evolves : (t : DirectTunnel P) → Evolves t (close t)
  unfolding close
  close-Evolves t =
      let iced = record t { ice = P.ice_close t.ice } in
      if_holds (Evolves t) t.finished (λ _. Evolves-refl t)
        (λ _. Evolves-trans t iced _ (ice_set-Evolves _ t) (finish-Evolves CloseReason.local iced))

  pub set_remote-Evolves : (a : SocketAddr) (t : DirectTunnel P) → Evolves t (set_remote a t)
  unfolding set_remote
  set_remote-Evolves a t =
      Quiet-Evolves t _ (ground arith) (Extends-refl t.trace) (inl refl)
        (λ (v : IsValid t). ground arith)

  pub set_send_buffer_cap-Evolves :
      (n : ℕ) (t : DirectTunnel P) → Evolves t (set_send_buffer_cap n t)
  unfolding set_send_buffer_cap
  set_send_buffer_cap-Evolves n t = Plumbing-Evolves t _ (ground arith)

  with_ice-Evolves :
      (prefix : String) (r : Result Text P.Agent) (t : DirectTunnel P)
      → Evolves t (after (with_ice prefix r t))
  unfolding with_ice
  with_ice-Evolves prefix (ok a) t = ice_set-Evolves a t
  with_ice-Evolves prefix (err e) t = Evolves-refl t

  pub set_remote_ice_credentials-Evolves :
      (ufrag pwd : Text) (t : DirectTunnel P)
      → Evolves t (after (set_remote_ice_credentials ufrag pwd t))
  unfolding set_remote_ice_credentials
  set_remote_ice_credentials-Evolves ufrag pwd t = with_ice-Evolves "remote credentials: " _ t

  refreshed-Evolves :
      (f : Text) (t : DirectTunnel P) → Evolves t (record t { remote_fingerprint = f })
  refreshed-Evolves f t =
      Quiet-Evolves t _ (ground arith) (Extends-refl t.trace) (inl refl)
        (λ (v : IsValid t). ground arith)

  pub apply_remote_answer_sdp-Evolves :
      (sdp : Text) (t : DirectTunnel P) → Evolves t (apply_remote_answer_sdp sdp t)
  unfolding apply_remote_answer_sdp
  apply_remote_answer_sdp-Evolves sdp t =
      option_holds (Evolves t) (parse_answer_fingerprint P sdp) (λ _. Evolves-refl t)
        (λ f _. refreshed-Evolves f t)
