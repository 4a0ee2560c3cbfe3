-- ===== src/Direct/Evolution/Sctp.antt =====
-- crates/rtc-tunnel-core/src/direct/mod.rs: the association's events, the channel, the transmits and
-- the whole `pump` evolve the tunnel.
use rtc_tunnel.Base.{
  ℕ, ◌≡◌, refl, ◌∙◌, if◌then◌else◌, Bool, true, not, ◌&&◌, Option, none, some, is_some, Bytes, Text,
  Result, ok, err, done, after, arith, while_some_keeps, while_ok_keeps, for_each_keeps, then_keeps,
  bind_keeps, if_holds, option_holds, ◌>>◌, polled_holds, IsPreorder, inl,
}
use rtc_tunnel.Event.{CloseReason}
use rtc_tunnel.Trace.{observe_sctp}
use rtc_tunnel.Trace.First.{observe_sctp-Extends, Extends-refl}
use rtc_tunnel.Platform.{Platform, Payload}
use rtc_tunnel.Direct.State.{DirectTunnel, Call, ms, maybe_open}
use rtc_tunnel.Direct.Change.{
  Evolves, Evolves-refl, Evolves-trans, Evolves-IsPreorder, Leads, Plumbing-Evolves, Quiet-Evolves,
}
use rtc_tunnel.Direct.Pump.{drain_ice_events, drain_ice_writes, drain_dtls_transmits}
use rtc_tunnel.Direct.Sctp.{
  Seen, nothing_seen, forward, endpoint_event_step, sctp_events, poll_association, mark_connected,
  mark_lost, drain_sctp, act_on_seen, params_set, stream_opened, open_stream, drain_channel,
  raw_written, write_raw, write_payload, transmit_step, drain_sctp_transmits, start_dtls,
  drain_secured, pump,
}
use rtc_tunnel.Direct.Evolution.Finish.{finish-Evolves, maybe_open-Evolves}
use rtc_tunnel.Direct.Evolution.Drains.{
  drain_ice_events-Evolves, drain_ice_writes-Evolves, drain_dtls_transmits-Evolves,
  dtls_set-Evolves,
}
use rtc_tunnel.Direct.Evolution.Dtls.{activate_dtls-Evolves, read_stream-Evolves, handled-Evolves}

module _ (P : Platform) where
  -- Telling the endpoint of an event keeps the endpoint there.
  abbrev SameEndpoint : Option P.Sctp × P.Association → Option P.Sctp × P.Association → Type 0
  SameEndpoint a b = is_some b.0 ≡ is_some a.0

  SameEndpoint-IsPreorder : IsPreorder SameEndpoint
  SameEndpoint-IsPreorder = record { stay = λ a. refl; go_on = λ a b c p q. q ∙ p }

  forward-is_some :
      (h : Option P.Handle) (e : P.EndpointEvent) (s : Option P.Sctp)
      → is_some (forward P h e s) ≡ is_some s
  unfolding forward
  forward-is_some none e none = refl
  forward-is_some (some h) e none = refl
  forward-is_some none e (some s) = refl
  forward-is_some (some h) e (some s) = refl

  endpoint_event_step-SameEndpoint :
      (h : Option P.Handle) (a b : Option P.Sctp × P.Association)
      → endpoint_event_step P h a ≡ some b
      → SameEndpoint a b
  unfolding endpoint_event_step
  endpoint_event_step-SameEndpoint h (s, a) b =
      polled_holds (SameEndpoint (s, a)) (P.poll_endpoint_event a) (λ e a' _. forward-is_some h e s)
        b

module _ {P : Platform} where
  told-Evolves :
      (s : Option P.Sctp) (a : P.Association) (t : DirectTunnel P)
      → is_some s ≡ is_some t.sctp
      → is_some t.association ≡ true
      → Evolves t (record t { sctp = s; association = some a })
  told-Evolves s a t hs ha = Plumbing-Evolves t _ (ground arith)

  sctp_events-Evolves :
      (a : P.Association) (t : DirectTunnel P)
      → is_some t.association ≡ true
      → Evolves t (sctp_events a t).1
  unfolding sctp_events
  sctp_events-Evolves a t h =
      told-Evolves _ _ t
        (while_some_keeps (SameEndpoint-IsPreorder P) (endpoint_event_step P t.association_handle)
          (endpoint_event_step-SameEndpoint P t.association_handle) _ _)
        h

  mark_lost-Evolves : (b : Bool) (t : DirectTunnel P) → Evolves t (mark_lost b t)
  unfolding mark_lost
  mark_lost-Evolves b t =
      if_holds (Evolves t) b (λ _. finish-Evolves CloseReason.remote t) (λ _. Evolves-refl t)

  connected-Evolves :
      (now : ℕ) (t : DirectTunnel P)
      → is_some t.association ≡ true
      → Evolves t (record t { sctp_connected = true; trace = observe_sctp now t.trace })
  connected-Evolves now t h =
      Quiet-Evolves t _ (ground arith) (observe_sctp-Extends now t.trace)
        (unfold observe_sctp in inl refl) (unfold observe_sctp in λ v. ground arith)

  mark_connected-Evolves :
      (b : Bool) (t : DirectTunnel P)
      → (b ≡ true → is_some t.association ≡ true)
      → Evolves t (mark_connected b t)
  unfolding mark_connected
  mark_connected-Evolves b t h =
      if_holds (Evolves t) b (λ e. connected-Evolves (ms t t.last_now) t (h e))
        (λ _. Evolves-refl t)

  act_on_seen-Evolves :
      (seen : Seen) (t : DirectTunnel P)
      → (seen.connected ≡ true → is_some t.association ≡ true)
      → Evolves t (after (act_on_seen seen t))
  unfolding act_on_seen
  act_on_seen-Evolves seen t h =
      let m = mark_connected seen.connected t in
      let marked = mark_lost seen.lost m in
      Evolves-trans t m _ (mark_connected-Evolves seen.connected t h) (
        Evolves-trans m marked _ (mark_lost-Evolves seen.lost m) (
          if_holds (Leads (Unit {0}) marked) seen.readable (λ _. read_stream-Evolves marked)
            (λ _. Evolves-refl marked)))

  polled-Evolves :
      (o : Option P.Association) (t : DirectTunnel P)
      → t.association ≡ o
      → let (seen, polled) = poll_association o t in Evolves t (after (act_on_seen seen polled))
  unfolding poll_association
  polled-Evolves none t e = act_on_seen-Evolves nothing_seen t (λ f. cc)
  polled-Evolves (some a) t e =
      let (seen, polled) = sctp_events a t in
      Evolves-trans t polled _ (sctp_events-Evolves a t (rw e))
        (act_on_seen-Evolves seen polled (λ _. unfold sctp_events in refl))

  drain_sctp-Evolves : (t : DirectTunnel P) → Evolves t (after (drain_sctp t))
  unfolding drain_sctp
  drain_sctp-Evolves t = polled-Evolves t.association t refl

  params_set-Evolves :
      (r : Result Text (Unit {0}) × P.Association) (t : DirectTunnel P)
      → is_some t.association ≡ true
      → Evolves t (after (params_set r t))
  unfolding params_set
  params_set-Evolves (ok _, a) t h = handled-Evolves a t h
  params_set-Evolves (err e, a) t h = handled-Evolves a t h

  stream_opened-Evolves :
      (r : Result Text (Unit {0}) × P.Association) (t : DirectTunnel P)
      → is_some t.association ≡ true
      → Evolves t (after (stream_opened r t))
  unfolding stream_opened
  stream_opened-Evolves (ok _, a) t h = params_set-Evolves _ t h
  stream_opened-Evolves (err e, a) t h = handled-Evolves a t h

  dialed-Evolves :
      (t : DirectTunnel P)
      → t.sctp_connected ≡ true
      → Evolves t (record t { channel_dialed = true })
  dialed-Evolves t h =
      Quiet-Evolves t _ (ground arith) (Extends-refl t.trace) (inl refl) (λ v. ground arith)

  open_stream-Evolves :
      (t : DirectTunnel P) → t.sctp_connected ≡ true → Evolves t (after (open_stream t))
  unfolding open_stream
  open_stream-Evolves t h =
      let t' = record t { channel_dialed = true } in
      Evolves-trans t t' _ (dialed-Evolves t h) (
        option_holds (Leads (Unit {0}) t') t.association (λ _. Evolves-refl t')
          (λ a q. stream_opened-Evolves _ t' (rw q)))

  pub drain_channel-Evolves : (t : DirectTunnel P) → Evolves t (after (drain_channel t))
  unfolding drain_channel
  drain_channel-Evolves t =
      if_holds (Leads (Unit {0}) t) (t.sctp_connected && not t.channel_dialed)
        (λ e. open_stream-Evolves t (ground arith)) (λ _. Evolves-refl t)

  raw_written-Evolves :
      (r : Result Text (Unit {0}) × P.Dtls) (t : DirectTunnel P)
      → Evolves t (after (raw_written r t))
  unfolding raw_written
  raw_written-Evolves (ok _, d) t = dtls_set-Evolves d t
  raw_written-Evolves (err e, d) t = dtls_set-Evolves d t

  write_raw-Evolves : (raw : Bytes) (t : DirectTunnel P) → Evolves t (after (write_raw raw t))
  unfolding write_raw
  write_raw-Evolves raw t = raw_written-Evolves _ t

  write_payload-Evolves : (p : Payload) (t : DirectTunnel P) → Evolves t (after (write_payload p t))
  unfolding write_payload
  write_payload-Evolves (Payload.raw_encode raws) t =
      if_holds (Leads (Unit {0}) t) t.dtls_started
        (λ _. for_each_keeps Evolves-IsPreorder write_raw write_raw-Evolves raws t)
        (λ _. Evolves-refl t)
  write_payload-Evolves Payload.partial_decode t = Evolves-refl t

  transmit_step-Evolves : (t : DirectTunnel P) → Evolves t (after (transmit_step t))
  unfolding transmit_step
  transmit_step-Evolves t =
      option_holds (Leads Bool t) t.association (λ _. Evolves-refl t)
        (λ a q.
          option_holds (Leads Bool t) (P.poll_transmit t.last_now a) (λ _. Evolves-refl t)
            (λ x _.
              let t' = record t { association = some x.1 } in
              Evolves-trans t t' _ (handled-Evolves x.1 t (rw q)) (
                bind_keeps Evolves-IsPreorder t' (write_payload x.0 t') _
                  (write_payload-Evolves x.0 t') (λ _ s. Evolves-refl s))))

  pub drain_sctp_transmits-Evolves :
      (t : DirectTunnel P) → Evolves t (after (drain_sctp_transmits t))
  unfolding drain_sctp_transmits
  drain_sctp_transmits-Evolves t =
      option_holds (Leads (Unit {0}) t) t.association (λ _. Evolves-refl t)
        (λ a _. while_ok_keeps Evolves-IsPreorder transmit_step transmit_step-Evolves _ t)

  Evolves-then :
      (t : DirectTunnel P) (m : Call P (Unit {0})) (k : DirectTunnel P → Call P (Unit {0}))
      → Evolves t (after m)
      → ((s : DirectTunnel P) → Evolves s (after (k s)))
      → Evolves t (after (m >> k))
  Evolves-then t m k = then_keeps Evolves-IsPreorder t m k

  start_dtls-Evolves : (t : DirectTunnel P) → Evolves t (start_dtls t)
  unfolding start_dtls
  start_dtls-Evolves t =
      if_holds (Evolves t) (P.has_selected_pair t.ice && not t.dtls_started)
        (λ _. activate_dtls-Evolves t) (λ _. Evolves-refl t)

  drain_secured-Evolves : (t : DirectTunnel P) → Evolves t (after (drain_secured t))
  unfolding drain_secured
  drain_secured-Evolves t =
      let polled = drain_sctp t in
      let dialed = polled >> drain_channel in
      let sent = dialed >> drain_sctp_transmits in
      Evolves-then t sent (λ t'. done tt (drain_dtls_transmits t'))
        (Evolves-then t dialed drain_sctp_transmits
          (Evolves-then t polled drain_channel (drain_sctp-Evolves t) drain_channel-Evolves)
          drain_sctp_transmits-Evolves)
        drain_dtls_transmits-Evolves

  -- One pass over every layer keeps what was reached and what was queued, wherever it stops.
  pub pump-Evolves : (t : DirectTunnel P) → Evolves t (after (pump t))
  unfolding pump
  pump-Evolves t =
      let polled = drain_ice_events t in
      let written = drain_ice_writes polled in
      let started = start_dtls written in
      Evolves-trans t polled _ (drain_ice_events-Evolves t) (
        Evolves-trans polled written _ (drain_ice_writes-Evolves polled) (
          Evolves-trans written started _ (start_dtls-Evolves written) (
            Evolves-then started
              (if started.dtls_started then drain_secured started else done tt started)
              (λ t'. done tt (maybe_open t'))
              (if_holds (Leads (Unit {0}) started) started.dtls_started
                (λ _. drain_secured-Evolves started) (λ _. Evolves-refl started))
              maybe_open-Evolves)))
