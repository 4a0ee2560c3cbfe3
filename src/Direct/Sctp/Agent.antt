-- ===== src/Direct/Sctp/Agent.antt =====
-- crates/rtc-tunnel-core/src/direct/mod.rs: behind the drains of the ICE agent, `pump` leaves the agent
-- alone.
use rtc_tunnel.Base.{
  ◌≡◌, refl, ◌∙◌, Bool, true, not, ◌&&◌, none, some, Bytes, Option, Text, Result, ok, err, done,
  after, while_some_keeps, while_ok_keeps, for_each_keeps, then_keeps, bind_keeps, if_holds,
  option_holds, ◌>>◌, polled_holds, IsPreorder, if◌then◌else◌,
}
use rtc_tunnel.Event.{CloseReason}
use rtc_tunnel.Platform.{Platform, Payload, Ppi}
use rtc_tunnel.Direct.State.{DirectTunnel, Call, maybe_open, finish, is_offerer}
use rtc_tunnel.Direct.Pump.{
  drain_ice_events, drain_ice_writes, dtls_transmit_step, drain_dtls_transmits, connect_dtls,
  activate_dtls, deliver_payload, deliver, read_chunks, read_step, read_stream,
}
use rtc_tunnel.Direct.Sctp.{
  Seen, sctp_events, poll_association, mark_connected, mark_lost, drain_sctp, act_on_seen,
  params_set, stream_opened, open_stream, drain_channel, raw_written, write_raw, write_payload,
  transmit_step, drain_sctp_transmits, start_dtls, drain_secured, pump,
}

module _ {P : Platform} where
  -- The ICE agent is left alone.
  abbrev SameAgent : DirectTunnel P → DirectTunnel P → Type 0
  SameAgent t u = u.ice ≡ t.ice

  SameAgent-IsPreorder : IsPreorder SameAgent
  SameAgent-IsPreorder = record { stay = λ t. refl; go_on = λ a b c p q. q ∙ p }

  abbrev Spares : {A : Type 0} → DirectTunnel P → Call P A → Type 0
  Spares t m = SameAgent t (after m)

  finish-SameAgent : (r : CloseReason) (t : DirectTunnel P) → SameAgent t (finish r t)
  unfolding finish
  finish-SameAgent r t = if_holds (SameAgent t) t.finished (λ _. refl) (λ _. refl)

  maybe_open-SameAgent : (t : DirectTunnel P) → SameAgent t (maybe_open t)
  unfolding maybe_open
  maybe_open-SameAgent t =
      if_holds (SameAgent t) t.opened (λ _. refl)
        (λ _. if_holds (SameAgent t) (t.sctp_connected && t.channel_dialed) (λ _. refl) (λ _. refl))

  activate_dtls-SameAgent : (t : DirectTunnel P) → SameAgent t (activate_dtls t)
  unfolding activate_dtls connect_dtls
  activate_dtls-SameAgent t =
      if_holds (SameAgent t) (is_offerer t.role) (λ _. connected t.dtls_config) (λ _. refl)
    where
      connected : (c : Option P.DtlsConfig) → SameAgent t (connect_dtls c t)
      connected none = refl
      connected (some c) = refl

  start_dtls-SameAgent : (t : DirectTunnel P) → SameAgent t (start_dtls t)
  unfolding start_dtls
  start_dtls-SameAgent t =
      if_holds (SameAgent t) (P.has_selected_pair t.ice && not t.dtls_started)
        (λ _. activate_dtls-SameAgent t) (λ _. refl)

  payload-SameAgent : (r : Result Text Bytes) (t : DirectTunnel P) → Spares t (deliver_payload r t)
  unfolding deliver_payload
  payload-SameAgent (ok b) t = refl
  payload-SameAgent (err e) t = refl

  deliver-SameAgent : (c : P.Chunks) (p : Ppi) (t : DirectTunnel P) → Spares t (deliver c p t)
  unfolding deliver
  deliver-SameAgent c Ppi.binary_empty t = refl
  deliver-SameAgent c Ppi.string_empty t = refl
  deliver-SameAgent c Ppi.binary t = payload-SameAgent _ t
  deliver-SameAgent c Ppi.string t = payload-SameAgent _ t
  deliver-SameAgent c Ppi.other_ppi t = refl

  read_chunks-SameAgent :
      (r : Result Text (Option P.Chunks)) (t : DirectTunnel P) → Spares t (read_chunks r t)
  unfolding read_chunks
  read_chunks-SameAgent (err e) t = refl
  read_chunks-SameAgent (ok none) t = refl
  read_chunks-SameAgent (ok (some c)) t = deliver-SameAgent c (P.ppi c) t

  read_step-SameAgent : (t : DirectTunnel P) → Spares t (read_step t)
  unfolding read_step
  read_step-SameAgent t =
      option_holds (Spares t) t.association (λ _. refl)
        (λ a _.
          let r = P.read_sctp t.stream_id a in
          read_chunks-SameAgent r.0 (record t { association = some r.1 }))

  read_stream-SameAgent : (t : DirectTunnel P) → Spares t (read_stream t)
  unfolding read_stream
  read_stream-SameAgent t =
      option_holds (Spares t) t.association (λ _. refl)
        (λ a _.
          if_holds (Spares t) (P.has_stream t.stream_id a)
            (λ _. while_ok_keeps SameAgent-IsPreorder read_step read_step-SameAgent _ t)
            (λ _. refl))

  mark_connected-SameAgent : (b : Bool) (t : DirectTunnel P) → SameAgent t (mark_connected b t)
  unfolding mark_connected
  mark_connected-SameAgent b t = if_holds (SameAgent t) b (λ _. refl) (λ _. refl)

  mark_lost-SameAgent : (b : Bool) (t : DirectTunnel P) → SameAgent t (mark_lost b t)
  unfolding mark_lost
  mark_lost-SameAgent b t =
      if_holds (SameAgent t) b (λ _. finish-SameAgent CloseReason.remote t) (λ _. refl)

  act_on_seen-SameAgent : (seen : Seen) (t : DirectTunnel P) → Spares t (act_on_seen seen t)
  unfolding act_on_seen
  act_on_seen-SameAgent seen t =
      let marked = mark_lost seen.lost (mark_connected seen.connected t) in
      let same : SameAgent t marked =
        mark_lost-SameAgent seen.lost (mark_connected seen.connected t)
        ∙ mark_connected-SameAgent seen.connected t in
      if_holds (Spares t) seen.readable (λ _. read_stream-SameAgent marked ∙ same) (λ _. same)

  poll_association-SameAgent :
      (a : Option P.Association) (t : DirectTunnel P) → SameAgent t (poll_association a t).1
  unfolding poll_association sctp_events
  poll_association-SameAgent none t = refl
  poll_association-SameAgent (some a) t = refl

  drain_sctp-SameAgent : (t : DirectTunnel P) → Spares t (drain_sctp t)
  unfolding drain_sctp
  drain_sctp-SameAgent t =
      let (seen, polled) = poll_association t.association t in
      act_on_seen-SameAgent seen polled ∙ poll_association-SameAgent t.association t

  params_set-SameAgent :
      (r : Result Text (Unit {0}) × P.Association) (t : DirectTunnel P) → Spares t (params_set r t)
  unfolding params_set
  params_set-SameAgent (ok _, a) t = refl
  params_set-SameAgent (err e, a) t = refl

  stream_opened-SameAgent :
      (r : Result Text (Unit {0}) × P.Association) (t : DirectTunnel P)
      → Spares t (stream_opened r t)
  unfolding stream_opened
  stream_opened-SameAgent (ok _, a) t = params_set-SameAgent _ t
  stream_opened-SameAgent (err e, a) t = refl

  open_stream-SameAgent : (t : DirectTunnel P) → Spares t (open_stream t)
  unfolding open_stream
  open_stream-SameAgent t =
      let t' = record t { channel_dialed = true } in
      option_holds (Spares t) t.association (λ _. refl) (λ a _. stream_opened-SameAgent _ t')

  drain_channel-SameAgent : (t : DirectTunnel P) → Spares t (drain_channel t)
  unfolding drain_channel
  drain_channel-SameAgent t =
      if_holds (Spares t) (t.sctp_connected && not t.channel_dialed) (λ _. open_stream-SameAgent t)
        (λ _. refl)

  raw_written-SameAgent :
      (r : Result Text (Unit {0}) × P.Dtls) (t : DirectTunnel P) → Spares t (raw_written r t)
  unfolding raw_written
  raw_written-SameAgent (ok _, d) t = refl
  raw_written-SameAgent (err e, d) t = refl

  write_payload-SameAgent : (p : Payload) (t : DirectTunnel P) → Spares t (write_payload p t)
  unfolding write_payload write_raw
  write_payload-SameAgent (Payload.raw_encode raws) t =
      if_holds (Spares t) t.dtls_started
        (λ _.
          for_each_keeps SameAgent-IsPreorder write_raw (λ raw s. raw_written-SameAgent _ s) raws t)
        (λ _. refl)
  write_payload-SameAgent Payload.partial_decode t = refl

  transmit_step-SameAgent : (t : DirectTunnel P) → Spares t (transmit_step t)
  unfolding transmit_step
  transmit_step-SameAgent t =
      option_holds (Spares t) t.association (λ _. refl)
        (λ a _.
          option_holds (Spares t) (P.poll_transmit t.last_now a) (λ _. refl)
            (λ x _.
              let t' = record t { association = some x.1 } in
              bind_keeps SameAgent-IsPreorder t' (write_payload x.0 t') _
                (write_payload-SameAgent x.0 t') (λ _ s. refl)))

  drain_sctp_transmits-SameAgent : (t : DirectTunnel P) → Spares t (drain_sctp_transmits t)
  unfolding drain_sctp_transmits
  drain_sctp_transmits-SameAgent t =
      option_holds (Spares t) t.association (λ _. refl)
        (λ a _. while_ok_keeps SameAgent-IsPreorder transmit_step transmit_step-SameAgent _ t)

  drain_dtls_transmits-SameAgent : (t : DirectTunnel P) → SameAgent t (drain_dtls_transmits t)
  unfolding drain_dtls_transmits dtls_transmit_step
  drain_dtls_transmits-SameAgent t =
      while_some_keeps SameAgent-IsPreorder dtls_transmit_step
        (λ u u'. polled_holds (SameAgent u) (P.dtls_poll_transmit u.dtls) (λ x a _. refl) u') _ t

  drain_secured-SameAgent : (t : DirectTunnel P) → Spares t (drain_secured t)
  unfolding drain_secured
  drain_secured-SameAgent t =
      let polled = drain_sctp t in
      let dialed = polled >> drain_channel in
      let sent = dialed >> drain_sctp_transmits in
      then_keeps SameAgent-IsPreorder t sent (λ t'. done tt (drain_dtls_transmits t'))
        (then_keeps SameAgent-IsPreorder t dialed drain_sctp_transmits
          (then_keeps SameAgent-IsPreorder t polled drain_channel (drain_sctp-SameAgent t)
            drain_channel-SameAgent)
          drain_sctp_transmits-SameAgent)
        drain_dtls_transmits-SameAgent

  -- Behind the drains of the agent, `pump` leaves it alone.
  pub pump-agent :
      (t : DirectTunnel P) → (after (pump t)).ice ≡ (drain_ice_writes (drain_ice_events t)).ice
  unfolding pump
  pump-agent t =
      let written = drain_ice_writes (drain_ice_events t) in
      let started = start_dtls written in
      then_keeps SameAgent-IsPreorder started
        (if started.dtls_started then drain_secured started else done tt started)
        (λ t'. done tt (maybe_open t'))
        (if_holds (Spares started) started.dtls_started (λ _. drain_secured-SameAgent started)
          (λ _. refl))
        maybe_open-SameAgent
      ∙ start_dtls-SameAgent written
