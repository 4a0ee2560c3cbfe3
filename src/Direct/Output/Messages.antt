-- ===== src/Direct/Output/Messages.antt =====
-- crates/rtc-tunnel-core/src/direct/mod.rs: all that `send` queues is datagrams.
use rtc_tunnel.Base.{
  ◌≡◌, refl, sym, ap, ◌∙◌, Bool, true, false, not, ◌&&◌, some, List, [], ◌∷◌, ◌++◌, map, Bytes,
  Text, Result, ok, err, done, after, length, ltb, append_assoc, append-nil, IsPreorder, ◌>>=◌,
  while_some_keeps, while_ok_keeps, for_each_keeps, bind_keeps, polled_holds, if_holds,
  option_holds,
}
use mathlib.Core.List.{map-append}
use rtc_tunnel.Event.{SendResult, send_datagram, max_message_size}
use rtc_tunnel.Platform.{Platform, Payload}
use rtc_tunnel.Direct.State.{DirectTunnel, Call}
use rtc_tunnel.Direct.Pump.{dtls_transmit_step, drain_dtls_transmits}
use rtc_tunnel.Direct.Sctp.{
  params_set, stream_opened, open_stream, drain_channel, raw_written, write_raw, write_payload,
  transmit_step, drain_sctp_transmits,
}
use rtc_tunnel.Direct.Output.{flush, written, over_cap, send_on, framed, send}

module _ {P : Platform} where
  -- What was queued between the two is datagrams.
  abbrev pub Sends : DirectTunnel P → DirectTunnel P → Type 0
  Sends t u = (out : List Bytes) × (u.events ≡ t.events ++ map send_datagram out)

  pub Sends-same : (t u : DirectTunnel P) → u.events ≡ t.events → Sends t u
  Sends-same t u e = ([], e ∙ sym (append-nil t.events))

  pub Sends-trans : (a b c : DirectTunnel P) → Sends a b → Sends b c → Sends a c
  Sends-trans a b c p q = (
    p.0 ++ q.0,
    q.1
        ∙ ap (λ l. l ++ map send_datagram q.0) p.1
        ∙ append_assoc a.events (map send_datagram p.0) (map send_datagram q.0)
        ∙ ap (λ l. a.events ++ l) (sym (map-append send_datagram p.0 q.0)),
  )

  Sends-IsPreorder : IsPreorder Sends
  Sends-IsPreorder = record { stay = λ t. Sends-same t t refl; go_on = Sends-trans }

  dtls_transmit_step-Sends : (t u : DirectTunnel P) → dtls_transmit_step t ≡ some u → Sends t u
  unfolding dtls_transmit_step
  dtls_transmit_step-Sends t =
      polled_holds (Sends t) (P.dtls_poll_transmit t.dtls) λ b d _. (b ∷ [], refl)

  drain_dtls_transmits-Sends : (t : DirectTunnel P) → Sends t (drain_dtls_transmits t)
  unfolding drain_dtls_transmits
  drain_dtls_transmits-Sends t =
      while_some_keeps Sends-IsPreorder dtls_transmit_step dtls_transmit_step-Sends _ t

  -- A call that leaves the queue as it was, whether it returns or stops early.
  abbrev Silent : (A : Type 0) → DirectTunnel P → Call P A → Type 0
  Silent A t m = (after m).events ≡ t.events

  params_set-Silent :
      (r : Result Text (Unit {0}) × P.Association) (t : DirectTunnel P)
      → Silent (Unit {0}) t (params_set r t)
  unfolding params_set
  params_set-Silent (ok _, a) t = refl
  params_set-Silent (err e, a) t = refl

  stream_opened-Silent :
      (r : Result Text (Unit {0}) × P.Association) (t : DirectTunnel P)
      → Silent (Unit {0}) t (stream_opened r t)
  unfolding stream_opened
  stream_opened-Silent (ok _, a) t = params_set-Silent _ t
  stream_opened-Silent (err e, a) t = refl

  drain_channel-Silent : (t : DirectTunnel P) → Silent (Unit {0}) t (drain_channel t)
  unfolding drain_channel open_stream
  drain_channel-Silent t =
      if_holds (Silent (Unit {0}) t) (t.sctp_connected && not t.channel_dialed)
        (λ _.
          option_holds (Silent (Unit {0}) t) t.association (λ _. refl)
            (λ a _. stream_opened-Silent _ (record t { channel_dialed = true })))
        (λ _. refl)

  raw_written-Sends :
      (r : Result Text (Unit {0}) × P.Dtls) (t : DirectTunnel P) → Sends t (after (raw_written r t))
  unfolding raw_written
  raw_written-Sends (ok _, d) t = Sends-same t (record t { dtls = d }) refl
  raw_written-Sends (err e, d) t = Sends-same t (record t { dtls = d }) refl

  write_payload-Sends : (p : Payload) (t : DirectTunnel P) → Sends t (after (write_payload p t))
  unfolding write_payload write_raw
  write_payload-Sends (Payload.raw_encode raws) t =
      if_holds (λ (m : Call P (Unit {0})). Sends t (after m)) t.dtls_started
        (λ _.
          for_each_keeps Sends-IsPreorder write_raw
            (λ raw u. raw_written-Sends (P.dtls_write u.last_now u.remote_addr raw u.dtls) u) raws
            t)
        (λ _. Sends-same t t refl)
  write_payload-Sends Payload.partial_decode t = Sends-same t t refl

  transmit_step-Sends : (t : DirectTunnel P) → Sends t (after (transmit_step t))
  unfolding transmit_step
  transmit_step-Sends t =
      let Leads : Call P Bool → Type 0 = λ m. Sends t (after m) in
      option_holds Leads t.association (λ _. Sends-same t t refl)
        (λ a _.
          option_holds Leads (P.poll_transmit t.last_now a) (λ _. Sends-same t t refl)
            (λ x _.
              let t' = record t { association = some x.1 } in
              let round : Call P Bool = write_payload x.0 t' >>= λ _. done true in
              Sends-trans t t' (after round) (Sends-same t t' refl) (
                bind_keeps Sends-IsPreorder t' (write_payload x.0 t') (λ _. done true)
                  (write_payload-Sends x.0 t') (λ _ u. Sends-same u u refl))))

  drain_sctp_transmits-Sends : (t : DirectTunnel P) → Sends t (after (drain_sctp_transmits t))
  unfolding drain_sctp_transmits
  drain_sctp_transmits-Sends t =
      option_holds (λ (m : Call P (Unit {0})). Sends t (after m)) t.association
        (λ _. Sends-same t t refl)
        (λ a _. while_ok_keeps Sends-IsPreorder transmit_step transmit_step-Sends _ t)

  flush-Sends : (t : DirectTunnel P) → Sends t (flush t)
  unfolding flush
  flush-Sends t =
      let dialed = after (drain_channel t) in
      let sent = after (drain_sctp_transmits dialed) in
      Sends-trans t dialed (flush t) (Sends-same t dialed (drain_channel-Silent t)) (
        Sends-trans dialed sent (flush t) (drain_sctp_transmits-Sends dialed)
          (drain_dtls_transmits-Sends sent))

  abbrev Second : DirectTunnel P → SendResult × DirectTunnel P → Type 0
  Second t r = Sends t r.1

  written-Sends : (r : Bool × P.Association) (t : DirectTunnel P) → Second t (written r t)
  unfolding written
  written-Sends (true, a) t =
      let t' = record t { association = some a } in
      Sends-trans t t' (flush t') (Sends-same t t' refl) (flush-Sends t')
  written-Sends (false, a) t = Sends-same t (record t { association = some a }) refl

  send_on-Sends : (a : P.Association) (m : Bytes) (t : DirectTunnel P) → Second t (send_on a m t)
  unfolding send_on
  send_on-Sends a m t =
      let still = Sends-same t t refl in
      if_holds (Second t) (not (P.has_stream t.stream_id a)) (λ _. still)
        (λ _.
          if_holds (Second t) (over_cap m a t) (λ _. still)
            (λ _.
              if_holds (Second t) (not (P.is_writable t.stream_id a)) (λ _. still)
                (λ _.
                  let (ppi, payload) = framed m in
                  written-Sends (P.write_chunk_with_ppi t.stream_id payload ppi a) t)))

  -- All that `send` adds to the queue of events is datagrams, whatever it returns.
  pub send-Sends :
      (m : Bytes) (t : DirectTunnel P)
      → (out : List Bytes) × ((send m t).1.events ≡ t.events ++ map send_datagram out)
  unfolding send
  send-Sends m t =
      let still = Sends-same t t refl in
      if_holds (Second t) t.finished (λ _. still)
        (λ _.
          if_holds (Second t) (not t.opened) (λ _. still)
            (λ _.
              if_holds (Second t) (ltb max_message_size (length m)) (λ _. still)
                (λ _.
                  option_holds (Second t) t.association (λ _. still) (λ a _. send_on-Sends a m t))))
