-- ===== src/Direct/Evolution/Dtls.antt =====
-- crates/rtc-tunnel-core/src/direct/mod.rs: starting DTLS and SCTP, and feeding datagrams up through
-- them to the negotiated stream, evolves the tunnel.
use rtc_tunnel.Base.{
  ℕ, ◌≡◌, refl, Bool, true, Option, none, some, is_some, List, [], Bytes, Result, ok, err, after,
  arith, while_ok_keeps, for_each_keeps, if_holds, option_holds, inl,
}
use rtc_tunnel.Net.{Instant}
use rtc_tunnel.Event.{message}
use rtc_tunnel.Trace.{observe_dtls}
use rtc_tunnel.Trace.First.{observe_dtls-Extends, Extends-refl}
use rtc_tunnel.Platform.{Platform, DtlsEvent, Ppi, DatagramEvent}
use rtc_tunnel.Direct.State.{DirectTunnel, is_offerer, ms}
use rtc_tunnel.Direct.Change.{
  Evolves, Evolves-refl, Evolves-trans, Evolves-IsPreorder, Leads, Plumbing-Evolves, Quiet-Evolves,
  push_back-Evolves,
}
use rtc_tunnel.Direct.Pump.{
  connect_dtls, activate_dtls, connected_to, start_sctp, datagram_event, feed_sctp, dtls_event,
  dtls_events, feed_dtls, deliver_payload, deliver, read_chunks, read_step, read_stream,
}
use rtc_tunnel.Direct.Evolution.Drains.{dtls_set-Evolves}

module _ {P : Platform} where
  started-Evolves :
      (b : Bool) (d : P.Dtls) (t : DirectTunnel P)
      → Evolves t (record t { dtls = d; dtls_started = b })
  started-Evolves b d t = Plumbing-Evolves t _ (ground arith)

  connect_dtls-Evolves :
      (c : Option P.DtlsConfig) (t : DirectTunnel P) → Evolves t (connect_dtls c t)
  unfolding connect_dtls
  connect_dtls-Evolves none t = started-Evolves _ t.dtls t
  connect_dtls-Evolves (some config) t = started-Evolves _ _ t

  pub activate_dtls-Evolves : (t : DirectTunnel P) → Evolves t (activate_dtls t)
  unfolding activate_dtls
  activate_dtls-Evolves t =
      if_holds (Evolves t) (is_offerer t.role) (λ _. connect_dtls-Evolves t.dtls_config t)
        (λ _. started-Evolves true t.dtls t)

  connected_to-Evolves :
      (r : Result (List ℕ) (P.Handle × P.Association) × P.Sctp) (t : DirectTunnel P)
      → t.dtls_connected ≡ true
      → Evolves t (after (connected_to r t))
  unfolding connected_to
  connected_to-Evolves (ok (h, a), s) t d =
      Quiet-Evolves t _ (ground arith) (Extends-refl t.trace) (inl refl) (λ v. ground arith)
  connected_to-Evolves (err e, s) t d =
      Quiet-Evolves t _ (ground arith) (Extends-refl t.trace) (inl refl) (λ v. ground arith)

  listening-Evolves :
      (c : P.SctpConfig) (t : DirectTunnel P)
      → t.dtls_connected ≡ true
      → Evolves t (record t { sctp = some (P.new_sctp (some c)); sctp_config = some c })
  listening-Evolves c t d =
      Quiet-Evolves t _ (ground arith) (Extends-refl t.trace) (inl refl) (λ v. ground arith)

  start_sctp-Evolves :
      (t : DirectTunnel P) → t.dtls_connected ≡ true → Evolves t (after (start_sctp t))
  unfolding start_sctp
  start_sctp-Evolves t d =
      if_holds (Leads (Unit {0}) t) (is_offerer t.role) (λ _. connected_to-Evolves _ t d)
        (λ _. listening-Evolves _ t d)

  pub handled-Evolves :
      (a : P.Association) (t : DirectTunnel P)
      → is_some t.association ≡ true
      → Evolves t (record t { association = some a })
  handled-Evolves a t h = Plumbing-Evolves t _ (ground arith)

  datagram_event-Evolves :
      (e : Option (P.Handle × DatagramEvent P.Association P.AssociationEvent)) (t : DirectTunnel P)
      → is_some t.sctp ≡ true
      → Evolves t (datagram_event e t)
  unfolding datagram_event
  datagram_event-Evolves none t s = Evolves-refl t
  datagram_event-Evolves (some (h, DatagramEvent.new_association a)) t s =
      Quiet-Evolves t _ (ground arith) (Extends-refl t.trace) (inl refl) (λ v. ground arith)
  datagram_event-Evolves (some (h, DatagramEvent.association_event e)) t s =
      option_holds (Evolves t) t.association (λ _. Evolves-refl t)
        (λ a q. handled-Evolves (P.handle_event e a) t (rw q))
  datagram_event-Evolves (some (h, DatagramEvent.other_datagram_event)) t s = Evolves-refl t

  sctp_set-Evolves :
      (s : P.Sctp) (t : DirectTunnel P)
      → is_some t.sctp ≡ true
      → Evolves t (record t { sctp = some s })
  sctp_set-Evolves s t h = Plumbing-Evolves t _ (ground arith)

  feed_sctp-Evolves :
      (now : Instant) (bytes : Bytes) (t : DirectTunnel P)
      → Evolves t (after (feed_sctp now bytes t))
  unfolding feed_sctp
  feed_sctp-Evolves now bytes t =
      option_holds (Leads (Unit {0}) t) t.sctp (λ _. Evolves-refl t)
        (λ s q.
          let (e, s') = P.sctp_handle now t.remote_addr bytes s in
          Evolves-trans t (record t { sctp = some s' }) _ (sctp_set-Evolves s' t (rw q))
            (datagram_event-Evolves e (record t { sctp = some s' }) refl))

  secured-Evolves :
      (now : ℕ) (t : DirectTunnel P)
      → Evolves t (record t { dtls_connected = true; trace = observe_dtls now t.trace })
  secured-Evolves now t =
      Quiet-Evolves t _ (ground arith) (observe_dtls-Extends now t.trace)
        (unfold observe_dtls in inl refl) (unfold observe_dtls in λ v. ground arith)

  dtls_event-Evolves :
      (now : Instant) (e : DtlsEvent) (t : DirectTunnel P) → Evolves t (after (dtls_event now e t))
  unfolding dtls_event
  dtls_event-Evolves now DtlsEvent.handshake_complete t =
      let t' = record t { dtls_connected = true; trace = observe_dtls (ms t now) t.trace } in
      Evolves-trans t t' _ (secured-Evolves (ms t now) t) (
        if_holds (Leads (Unit {0}) t') (is_some t.sctp) (λ _. Evolves-refl t')
          (λ _. start_sctp-Evolves t' refl))
  dtls_event-Evolves now (DtlsEvent.application_data bytes) t = feed_sctp-Evolves now bytes t
  dtls_event-Evolves now DtlsEvent.other_dtls_event t = Evolves-refl t

  dtls_events-Evolves :
      (now : Instant) (r : Result (List ℕ) (List DtlsEvent)) (t : DirectTunnel P)
      → Evolves t (after (dtls_events now r t))
  unfolding dtls_events
  dtls_events-Evolves now (err e) t = Evolves-refl t
  dtls_events-Evolves now (ok es) t =
      for_each_keeps Evolves-IsPreorder (dtls_event now) (dtls_event-Evolves now) es t

  pub feed_dtls-Evolves :
      (now : Instant) (bytes : Bytes) (t : DirectTunnel P)
      → Evolves t (after (feed_dtls now bytes t))
  unfolding feed_dtls
  feed_dtls-Evolves now bytes t =
      let (r, d) = P.dtls_read now t.remote_addr bytes t.dtls in
      Evolves-trans t (record t { dtls = d }) _ (dtls_set-Evolves d t)
        (dtls_events-Evolves now r (record t { dtls = d }))

  deliver_payload-Evolves :
      (r : Result (List ℕ) Bytes) (t : DirectTunnel P) → Evolves t (after (deliver_payload r t))
  unfolding deliver_payload
  deliver_payload-Evolves (ok payload) t = push_back-Evolves (message payload) t refl refl
  deliver_payload-Evolves (err e) t = Evolves-refl t

  deliver-Evolves :
      (chunks : P.Chunks) (p : Ppi) (t : DirectTunnel P) → Evolves t (after (deliver chunks p t))
  unfolding deliver
  deliver-Evolves chunks Ppi.binary_empty t = push_back-Evolves (message []) t refl refl
  deliver-Evolves chunks Ppi.string_empty t = push_back-Evolves (message []) t refl refl
  deliver-Evolves chunks Ppi.binary t = deliver_payload-Evolves _ t
  deliver-Evolves chunks Ppi.string t = deliver_payload-Evolves _ t
  deliver-Evolves chunks Ppi.other_ppi t = Evolves-refl t

  read_chunks-Evolves :
      (r : Result (List ℕ) (Option P.Chunks)) (t : DirectTunnel P)
      → Evolves t (after (read_chunks r t))
  unfolding read_chunks
  read_chunks-Evolves (err e) t = Evolves-refl t
  read_chunks-Evolves (ok none) t = Evolves-refl t
  read_chunks-Evolves (ok (some chunks)) t = deliver-Evolves chunks (P.ppi chunks) t

  read_step-Evolves : (t : DirectTunnel P) → Evolves t (after (read_step t))
  unfolding read_step
  read_step-Evolves t =
      option_holds (Leads Bool t) t.association (λ _. Evolves-refl t)
        (λ a q.
          let (r, a') = P.read_sctp t.stream_id a in
          Evolves-trans t (record t { association = some a' }) _ (handled-Evolves a' t (rw q))
            (read_chunks-Evolves r (record t { association = some a' })))

  pub read_stream-Evolves : (t : DirectTunnel P) → Evolves t (after (read_stream t))
  unfolding read_stream
  read_stream-Evolves t =
      option_holds (Leads (Unit {0}) t) t.association (λ _. Evolves-refl t)
        (λ a _.
          if_holds (Leads (Unit {0}) t) (P.has_stream t.stream_id a)
            (λ _. while_ok_keeps Evolves-IsPreorder read_step read_step-Evolves _ t)
            (λ _. Evolves-refl t))
