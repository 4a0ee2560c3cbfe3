-- ===== src/Direct/Input/Batch.antt =====
-- crates/rtc-tunnel-core/src/direct/mod.rs: taking a datagram in queues nothing and neither opens nor
-- finishes the tunnel, so a deferred datagram and its batch amount to `receive`.
use rtc_tunnel.Base.{
  ℕ, ◌≡◌, refl, ◌∙◌, Bool, Option, none, some, is_some, List, Bytes, Result, ok, err, after, arith,
  if◌then◌else◌, IsPreorder, for_each_keeps, if_holds, option_holds,
}
use rtc_tunnel.Net.{Instant}
use rtc_tunnel.Platform.{Platform, DtlsEvent, DatagramEvent}
use rtc_tunnel.Direct.State.{DirectTunnel, Call, is_offerer, is_stun, is_dtls, instant}
use rtc_tunnel.Direct.Pump.{
  connect_dtls, activate_dtls, connected_to, start_sctp, datagram_event, feed_sctp, dtls_event,
  dtls_events, feed_dtls,
}
use rtc_tunnel.Direct.Input.{
  ingest_stun, fed_dtls, ingest_dtls, classify, count_drop, ingest, take_in, receive,
  receive_deferred, finish_input_batch,
}

-- What taking a datagram in leaves alone.
pub record Takes {P : Platform} (before after : DirectTunnel P) : Type 0 where
  pub events : after.events ≡ before.events
  pub opened : after.opened ≡ before.opened
  pub finished : after.finished ≡ before.finished

module _ {P : Platform} where
  Takes-refl : (t : DirectTunnel P) → Takes t t
  Takes-refl t = record { events = refl; opened = refl; finished = refl }

  Takes-trans : (a b c : DirectTunnel P) → Takes a b → Takes b c → Takes a c
  Takes-trans a b c p q = record {
    events = q.events ∙ p.events;
    opened = q.opened ∙ p.opened;
    finished = q.finished ∙ p.finished;
  }

  Takes-IsPreorder : IsPreorder (Takes {P = P})
  Takes-IsPreorder = record { stay = Takes-refl; go_on = Takes-trans }

  abbrev TakesBy : DirectTunnel P → Call P (Unit {0}) → Type 0
  TakesBy t m = Takes t (after m)

  abbrev TakesSecond : DirectTunnel P → Bool × DirectTunnel P → Type 0
  TakesSecond t r = Takes t r.1

  connect_dtls-Takes : (c : Option P.DtlsConfig) (t : DirectTunnel P) → Takes t (connect_dtls c t)
  unfolding connect_dtls
  connect_dtls-Takes none t = ground arith
  connect_dtls-Takes (some c) t = ground arith

  activate_dtls-Takes : (t : DirectTunnel P) → Takes t (activate_dtls t)
  unfolding activate_dtls
  activate_dtls-Takes t =
      if_holds (Takes t) (is_offerer t.role) (λ _. connect_dtls-Takes t.dtls_config t)
        (λ _. record { events = refl; opened = refl; finished = refl })

  connected_to-Takes :
      (r : Result (List ℕ) (P.Handle × P.Association) × P.Sctp) (t : DirectTunnel P)
      → Takes t (after (connected_to r t))
  unfolding connected_to
  connected_to-Takes (ok (h, a), s) t = ground arith
  connected_to-Takes (err e, s) t = ground arith

  start_sctp-Takes : (t : DirectTunnel P) → Takes t (after (start_sctp t))
  unfolding start_sctp
  start_sctp-Takes t =
      if_holds (TakesBy t) (is_offerer t.role) (λ _. connected_to-Takes _ t)
        (λ _. record { events = refl; opened = refl; finished = refl })

  datagram_event-Takes :
      (e : Option (P.Handle × DatagramEvent P.Association P.AssociationEvent)) (t : DirectTunnel P)
      → Takes t (datagram_event e t)
  unfolding datagram_event
  datagram_event-Takes none t = Takes-refl t
  datagram_event-Takes (some (h, DatagramEvent.new_association a)) t = ground arith
  datagram_event-Takes (some (h, DatagramEvent.association_event e)) t =
      option_holds (Takes t) t.association (λ _. Takes-refl t)
        (λ a _. record { events = refl; opened = refl; finished = refl })
  datagram_event-Takes (some (h, DatagramEvent.other_datagram_event)) t = Takes-refl t

  feed_sctp-Takes :
      (now : Instant) (bytes : Bytes) (t : DirectTunnel P) → Takes t (after (feed_sctp now bytes t))
  unfolding feed_sctp
  feed_sctp-Takes now bytes t =
      option_holds (TakesBy t) t.sctp (λ _. Takes-refl t)
        (λ s _.
          let (e, s') = P.sctp_handle now t.remote_addr bytes s in
          let t' = record t { sctp = some s' } in
          Takes-trans t t' _ (record { events = refl; opened = refl; finished = refl })
            (datagram_event-Takes e t'))

  dtls_event-Takes :
      (now : Instant) (e : DtlsEvent) (t : DirectTunnel P) → Takes t (after (dtls_event now e t))
  unfolding dtls_event
  dtls_event-Takes now DtlsEvent.handshake_complete t =
      if_holds (TakesBy t) (is_some t.sctp)
        (λ _. record { events = refl; opened = refl; finished = refl })
        (λ _.
          Takes-trans t _ _ (record { events = refl; opened = refl; finished = refl })
            (start_sctp-Takes _))
  dtls_event-Takes now (DtlsEvent.application_data bytes) t = feed_sctp-Takes now bytes t
  dtls_event-Takes now DtlsEvent.other_dtls_event t = Takes-refl t

  dtls_events-Takes :
      (now : Instant) (r : Result (List ℕ) (List DtlsEvent)) (t : DirectTunnel P)
      → Takes t (after (dtls_events now r t))
  unfolding dtls_events
  dtls_events-Takes now (err e) t = Takes-refl t
  dtls_events-Takes now (ok es) t =
      for_each_keeps Takes-IsPreorder (dtls_event now) (dtls_event-Takes now) es t

  ingest_dtls-Takes :
      (now : Instant) (d : Bytes) (t : DirectTunnel P) → Takes t (ingest_dtls now d t).1
  unfolding ingest_dtls fed_dtls feed_dtls
  ingest_dtls-Takes now d t =
      if_holds (TakesSecond t) (P.has_selected_pair t.ice)
        (λ _.
          let active = if t.dtls_started then t else activate_dtls t in
          let (r, dtls) = P.dtls_read now active.remote_addr d active.dtls in
          let t' = record active { dtls = dtls } in
          Takes-trans t active _
            (if_holds (Takes t) t.dtls_started (λ _. Takes-refl t) (λ _. activate_dtls-Takes t))
            (Takes-trans active t' _ (record { events = refl; opened = refl; finished = refl })
              (dtls_events-Takes now r t')))
        (λ _. Takes-refl t)

  classify-Takes : (now : Instant) (d : Bytes) (t : DirectTunnel P) → Takes t (classify now d t).1
  unfolding classify ingest_stun
  classify-Takes now d t =
      if_holds (TakesSecond t) (is_stun d)
        (λ _. record { events = refl; opened = refl; finished = refl })
        (λ _.
          if_holds (TakesSecond t) (is_dtls d) (λ _. ingest_dtls-Takes now d t) (λ _. Takes-refl t))

  count_drop-Takes : (r : Bool × DirectTunnel P) → Takes r.1 (count_drop r)
  unfolding count_drop
  count_drop-Takes (taken, t) =
      if_holds (Takes t) taken (λ _. Takes-refl t)
        (λ _. record { events = refl; opened = refl; finished = refl })

  take_in-Takes : (n : ℕ) (d : Bytes) (t : DirectTunnel P) → Takes t (take_in n d t)
  unfolding take_in ingest
  take_in-Takes n d t =
      let now = instant t n in
      let t' = record t { last_now = now } in
      let r = classify now d t' in
      Takes-trans t t' _ (record { events = refl; opened = refl; finished = refl })
        (Takes-trans t' r.1 _ (classify-Takes now d t') (count_drop-Takes r))

  -- A deferred datagram, with the end of its batch if the channel had opened, amounts to a received
  -- one.
  pub deferred-eq-receive :
      (n : ℕ) (d : Bytes) (t : DirectTunnel P)
      → (if t.opened then finish_input_batch (receive_deferred n d t) else receive_deferred n d t)
        ≡ receive n d t
  unfolding receive_deferred receive finish_input_batch
  deferred-eq-receive n d t =
      let k = take_in-Takes n d t in
      if_holds (λ u. u ≡ receive n d t) t.opened (λ o. ground (arith, k.opened, k.finished))
        (λ o. ground (arith, k.opened))
