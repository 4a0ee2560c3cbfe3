-- ===== src/Refpeer/Echo/Transcript.antt =====
-- crates/rtc-tunnel-refpeer/src/main.rs: what the process prints over any rounds.
use rtc_tunnel.Base.{
  ℕ, ◌+◌, ◌≡◌, refl, sym, ap, ◌∙◌, Bool, List, [], ◌∷◌, ◌++◌, Bytes, Outcome, done, fail, after,
  arith, flag, leb, if_holds, option_holds, while_some_keeps, while_ok_keeps, polled_holds,
  IsPreorder, append-nil,
}
use rtc_tunnel.Net.{SocketAddr, Instant}
use rtc_tunnel.Backend.Peer.{
  PeerState, PeerEvent, channel_open, channel_close, other_channel_event, connection_state,
  ice_failed, other_peer_event, PeerMessage, channel_message, other_message,
}
use rtc_tunnel.Refpeer.Numbered.{count_up, count_up-add_one}
use rtc_tunnel.Refpeer.Echo.{
  Engine, Line, open_line, channel_closed_line, failed_line, echo_line, done_line, Stop, Arrival,
  datagram, would_block, broken, Round, Echoer, print, write_step, drain_writes, on_open, on_event,
  event_step, drain_events, echo, on_message, read_step, drain_reads, receive_from, turn, farewell,
  serve,
}
use rtc_tunnel.Refpeer.Echo.Lines.{open_one, open_lines, numbers, open_lines-append, numbers-append}

-- What has been printed agrees with the flag and the counter.
pub record Agrees {E : Engine} (s : Echoer E) : Type 0 where
  pub opened_once : open_lines s.printed ≡ flag s.opened
  pub numbered : numbers s.printed ≡ count_up s.echoes

module _ (E : Engine) where
  -- A line that is neither `OPEN` nor `ECHO`.
  print-Agrees :
      (l : Line) (s : Echoer E)
      → open_one l ≡ 0
      → numbers (l ∷ []) ≡ []
      → Agrees s
      → Agrees (print E l s)
  print-Agrees l s o n g = record {
    opened_once = omega (arith, g.opened_once, o, open_lines-append s.printed (l ∷ []));
    numbered =
        numbers-append s.printed (l ∷ [])
        ∙ ap (λ ns. numbers s.printed ++ ns) n
        ∙ append-nil (numbers s.printed)
        ∙ g.numbered;
  }

  pc-Agrees : (pc : E.peer.Connection) (s : Echoer E) → Agrees s → Agrees (record s { pc = pc })
  pc-Agrees pc s g = record { opened_once = g.opened_once; numbered = g.numbered }

  on_open-Agrees : (s : Echoer E) → Agrees s → Agrees (on_open E s)
  unfolding on_open
  on_open-Agrees s g =
      if_holds Agrees s.opened (λ _. g)
        (λ e. record {
          opened_once =
              omega (arith, g.opened_once, ap flag e, open_lines-append s.printed (open_line ∷ []));
          numbered =
              numbers-append s.printed (open_line ∷ [])
              ∙ append-nil (numbers s.printed)
              ∙ g.numbered;
        })

  abbrev Kept : Echoer E → Echoer E → Type 0
  Kept s s' = Agrees s → Agrees s'

  Kept-IsPreorder : IsPreorder Kept
  Kept-IsPreorder = record { stay = λ s g. g; go_on = λ a b c p q g. q (p g) }

  drain_writes-Agrees : (s : Echoer E) → Kept s (drain_writes E s)
  unfolding drain_writes write_step
  drain_writes-Agrees s =
      while_some_keeps Kept-IsPreorder (write_step E)
        (λ u.
          polled_holds (Kept u) (E.poll_write_to u.pc)
            λ d pc _ g. record { opened_once = g.opened_once; numbered = g.numbered })
        _ s

  on_event-Agrees : (e : PeerEvent) (s : Echoer E) → Kept s (after (on_event E e s))
  unfolding on_event
  on_event-Agrees channel_open s = on_open-Agrees s
  on_event-Agrees channel_close s = print-Agrees channel_closed_line s refl refl
  on_event-Agrees other_channel_event s = λ g. g
  on_event-Agrees (connection_state PeerState.failed) s = print-Agrees failed_line s refl refl
  on_event-Agrees (connection_state PeerState.connected) s = λ g. g
  on_event-Agrees (connection_state PeerState.disconnected) s = λ g. g
  on_event-Agrees (connection_state PeerState.closed) s = λ g. g
  on_event-Agrees (connection_state PeerState.other_peer_state) s = λ g. g
  on_event-Agrees ice_failed s = λ g. g
  on_event-Agrees other_peer_event s = λ g. g

  drain_events-Agrees : (s : Echoer E) → Kept s (drain_events E s)
  unfolding drain_events event_step
  drain_events-Agrees s =
      while_ok_keeps Kept-IsPreorder (event_step E)
        (λ u.
          option_holds (λ (m : Outcome (Unit {0}) (Echoer E) Bool). Kept u (after m))
            (E.peer.poll_peer_event u.pc) (λ _ g. g)
            (λ x _ g. on_event-Agrees x.0 (record u { pc = x.1 }) (pc-Agrees x.1 u g)))
        _ s

  echo-Agrees :
      (handle : E.peer.ChannelId) (now : Instant) (b : Bytes) (s : Echoer E)
      → Kept s (echo E handle now b s)
  unfolding echo
  echo-Agrees handle now b s =
      let l = echo_line (s.echoes + 1) ∷ [] in
      if_holds (Kept s) (E.peer.has_channel handle s.pc)
        (λ _ g. record {
          opened_once = omega (arith, g.opened_once, open_lines-append s.printed l);
          numbered =
              numbers-append s.printed l
              ∙ ap (λ ns. ns ++ (s.echoes + 1) ∷ []) g.numbered
              ∙ sym (count_up-add_one s.echoes);
        })
        (λ _ g. g)

  on_message-Agrees :
      (handle : E.peer.ChannelId) (now : Instant) (m : PeerMessage) (s : Echoer E)
      → Kept s (on_message E handle now m s)
  unfolding on_message
  on_message-Agrees handle now (channel_message b) s = echo-Agrees handle now b s
  on_message-Agrees handle now other_message s = λ g. g

  drain_reads-Agrees :
      (handle : E.peer.ChannelId) (send_at : ℕ → Instant) (s : Echoer E)
      → Kept s (drain_reads E handle send_at s)
  unfolding drain_reads read_step
  drain_reads-Agrees handle send_at s =
      while_some_keeps Kept-IsPreorder (read_step E handle send_at)
        (λ u. polled_holds (Kept u) (E.peer.poll_read u.pc) λ m pc _ g.
          on_message-Agrees handle (send_at u.echoes) m (record u { pc = pc }) (pc-Agrees pc u g))
        _ s

  receive_from-Agrees :
      (local_addr : SocketAddr) (now : Instant) (a : Arrival) (s : Echoer E)
      → Kept s (after (receive_from E local_addr now a s))
  unfolding receive_from
  receive_from-Agrees local_addr now (datagram from b) s = pc-Agrees _ s
  receive_from-Agrees local_addr now would_block s = λ g. g
  receive_from-Agrees local_addr now (broken e) s = λ g. g

  timed-Agrees :
      (r : Round) (s : Echoer E) (o : Outcome Stop (Echoer E) (Unit {0}))
      → Kept s (after o)
      → Kept s (
          after {E = Stop} {A = Unit {0}} (elim o [
            | fail e s' ↦ fail e s'
            | done _ s' ↦ done tt (record s' { pc = E.peer.handle_timeout r.timeout_at s'.pc })
          ]))
  timed-Agrees r s (fail e s') k = k
  timed-Agrees r s (done _ s') k = λ g. pc-Agrees _ s' (k g)

  turn-Agrees :
      (local_addr : SocketAddr) (handle : E.peer.ChannelId) (r : Round) (s : Echoer E)
      → Kept s (after (turn E local_addr handle r s))
  unfolding turn
  turn-Agrees local_addr handle r s =
      let written = drain_writes E s in
      let told = drain_events E written in
      let read = drain_reads E handle r.send_at told in
      timed-Agrees r s (receive_from E local_addr r.read_at r.arrival read) λ g.
        receive_from-Agrees local_addr r.read_at r.arrival read (
          drain_reads-Agrees handle r.send_at told
            (drain_events-Agrees written (drain_writes-Agrees s g)))

  went_on-Agrees :
      (local_addr : SocketAddr) (handle : E.peer.ChannelId) (lifetime : ℕ) (rounds : List Round)
      (s : Echoer E) (o : Outcome Stop (Echoer E) (Unit {0}))
      → ((u : Echoer E) → Kept u (after (serve E local_addr handle lifetime rounds u)))
      → Kept s (after o)
      → Kept s (
          after (elim o [
            | fail e s' ↦ fail e s'
            | done _ s' ↦ serve E local_addr handle lifetime rounds s'
          ]))
  went_on-Agrees local_addr handle lifetime rounds s (fail e s') ih k = k
  went_on-Agrees local_addr handle lifetime rounds s (done _ s') ih k = λ g. ih s' (k g)

  pub serve-Agrees :
      (local_addr : SocketAddr) (handle : E.peer.ChannelId) (lifetime : ℕ) (rounds : List Round)
      (s : Echoer E)
      → Agrees s
      → Agrees (after (serve E local_addr handle lifetime rounds s))
  unfolding serve farewell
  serve-Agrees local_addr handle lifetime [] s = λ g. g
  serve-Agrees local_addr handle lifetime (r ∷ rounds) s =
      if_holds (λ (m : Outcome Stop (Echoer E) Bool). Kept s (after m)) (leb lifetime r.elapsed)
        (λ _ g.
          print-Agrees done_line (record s { pc = E.peer.close_connection s.pc }) refl refl
            (pc-Agrees _ s g))
        (λ _.
          went_on-Agrees local_addr handle lifetime rounds s (turn E local_addr handle r s)
            (serve-Agrees local_addr handle lifetime rounds) (turn-Agrees local_addr handle r s))
