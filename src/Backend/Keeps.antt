-- ===== src/Backend/Keeps.antt =====
-- crates/rtc-tunnel-core/src/tunnel.rs: no call on the tunnel takes back what is announced, or
-- announces it twice.
pub mod Calls
use rtc_tunnel.Base.{
  ℕ, suc, ◌+◌, ◌≡◌, refl, sym, ap, ◌∙◌, Bool, true, false, not, ◌&&◌, ◌||◌, Option, none, some,
  is_some, List, [], ◌∷◌, ◌++◌, Bytes, Text, Result, ok, err, Outcome, done, fail, after, flag,
  arith, append_assoc, append-nil, IsPreorder, while_some_keeps, while_ok_keeps, polled_holds,
  if_holds, option_holds, if◌then◌else◌, length, ltb, min, leb,
}
use rtc_tunnel.Net.{SocketAddr, Instant}
use rtc_tunnel.Event.{
  CloseReason, Event, closed, opened, send_datagram, message, SendResult, max_message_size,
}
use rtc_tunnel.Event.Count.{opens, closes, opens-append, closes-append}
use rtc_tunnel.Trace.{is_complete, observe}
use rtc_tunnel.Trace.First.{Extends, Extends-refl, Extends-trans, observe-Extends}
use rtc_tunnel.Direct.Output.{usize_max}
use rtc_tunnel.Backend.Peer.{
  Peer, PeerState, PeerEvent, channel_open, channel_close, other_channel_event, connection_state,
  ice_failed, other_peer_event, PeerMessage, channel_message, other_message,
}
use rtc_tunnel.Backend.State.{
  Tunnel, Round, push_back, instant, ms_since_epoch, finish, refresh_opened, announce_open,
  maybe_open, on_channel_open, on_state, on_event, on_message, write_step, drain_writes, event_step,
  read_step, drain_events, drain_reads, phases, sample_handshake, drain,
}
use rtc_tunnel.Backend.Calls.{
  taken, feed, receive, receive_deferred, finish_input_batch, timed_out, tick, sent, send_open,
  send, close, applied, apply_remote_answer, with_description, apply_remote_answer_sdp,
}

-- What no call takes back, and what it announces.
pub record Keeps {P : Peer} (before after : Tunnel P) : Type 0 where
  pub same_epoch : after.epoch ≡ before.epoch
  pub same_deadline : after.handshake_deadline ≡ before.handshake_deadline
  pub opened_stays : before.opened ≡ true → after.opened ≡ true
  pub finished_stays : before.finished ≡ true → after.finished ≡ true
  pub closes_once :
      closes after.events + flag before.finished ≡ closes before.events + flag after.finished
  pub opens_once : opens after.events + flag before.opened ≡ opens before.events + flag after.opened
  pub trace_kept : Extends before.trace after.trace

-- A change that neither queues an event nor opens or finishes the tunnel.
pub record Still {P : Peer} (before after : Tunnel P) : Type 0 where
  pub epoch : after.epoch ≡ before.epoch
  pub deadline : after.handshake_deadline ≡ before.handshake_deadline
  pub opened : after.opened ≡ before.opened
  pub finished : after.finished ≡ before.finished
  pub events : after.events ≡ before.events

module _ {P : Peer} where
  Keeps-refl : (t : Tunnel P) → Keeps t t
  Keeps-refl t = record {
    same_epoch = refl;
    same_deadline = refl;
    opened_stays = λ h. h;
    finished_stays = λ h. h;
    closes_once = refl;
    opens_once = refl;
    trace_kept = Extends-refl t.trace;
  }

  Keeps-trans : (a b c : Tunnel P) → Keeps a b → Keeps b c → Keeps a c
  Keeps-trans a b c p q = record {
    same_epoch = q.same_epoch ∙ p.same_epoch;
    same_deadline = q.same_deadline ∙ p.same_deadline;
    opened_stays = λ h. q.opened_stays (p.opened_stays h);
    finished_stays = λ h. q.finished_stays (p.finished_stays h);
    closes_once = omega (arith, p.closes_once, q.closes_once);
    opens_once = omega (arith, p.opens_once, q.opens_once);
    trace_kept = Extends-trans a.trace b.trace c.trace p.trace_kept q.trace_kept;
  }

  Keeps-IsPreorder : IsPreorder (Keeps {P = P})
  Keeps-IsPreorder = record { stay = Keeps-refl; go_on = Keeps-trans }

  Still-Keeps : (t u : Tunnel P) → Still t u → Extends t.trace u.trace → Keeps t u
  Still-Keeps t u s e = record {
    same_epoch = s.epoch;
    same_deadline = s.deadline;
    opened_stays = λ h. s.opened ∙ h;
    finished_stays = λ h. s.finished ∙ h;
    closes_once = cc (s.events, s.finished);
    opens_once = cc (s.events, s.opened);
    trace_kept = e;
  }

  -- The connection, the clock and the counter change.
  pc-Keeps : (pc : P.Connection) (t : Tunnel P) → Keeps t (record t { pc = pc })
  pc-Keeps pc t =
      Still-Keeps t _
        (record { epoch = refl; deadline = refl; opened = refl; finished = refl; events = refl })
        (Extends-refl t.trace)

  push_back-Keeps :
      (e : Event) (t : Tunnel P)
      → opens (e ∷ []) ≡ 0
      → closes (e ∷ []) ≡ 0
      → Keeps t (push_back e t)
  push_back-Keeps e t o c = record {
    same_epoch = refl;
    same_deadline = refl;
    opened_stays = λ h. h;
    finished_stays = λ h. h;
    trace_kept = Extends-refl t.trace;
    closes_once = omega (arith, closes-append t.events (e ∷ []));
    opens_once = omega (arith, opens-append t.events (e ∷ []));
  }

  finish-Keeps : (reason : CloseReason) (t : Tunnel P) → Keeps t (finish reason t)
  unfolding finish
  finish-Keeps reason t =
      if_holds (Keeps t) t.finished (λ _. Keeps-refl t)
        λ e. record {
          same_epoch = refl;
          same_deadline = refl;
          opened_stays = λ h. h;
          finished_stays = λ _. refl;
          trace_kept = Extends-refl t.trace;
          closes_once = omega (arith, closes-append t.events (closed reason ∷ []), ap flag e);
          opens_once = omega (arith, opens-append t.events (closed reason ∷ []));
        }

  opening-Keeps :
      (t : Tunnel P) → t.opened ≡ false → Keeps t (push_back opened (record t { opened = true }))
  opening-Keeps t e = record {
    same_epoch = refl;
    same_deadline = refl;
    opened_stays = λ _. refl;
    finished_stays = λ h. h;
    trace_kept = Extends-refl t.trace;
    closes_once = omega (arith, closes-append t.events (opened ∷ []));
    opens_once = omega (arith, opens-append t.events (opened ∷ []), ap flag e);
  }

  maybe_open-Keeps : (t : Tunnel P) → Keeps t (maybe_open t)
  unfolding maybe_open refresh_opened announce_open
  maybe_open-Keeps t =
      if_holds (Keeps t) t.opened (λ _. Keeps-refl t)
        λ e.
          if_holds (λ u. Keeps t (announce_open u))
            (P.has_channel t.handle t.pc && P.channel_is_open t.handle t.pc)
            (λ _. opening-Keeps t e)
            (λ _. if_holds (Keeps t) t.opened (λ o. absurd (cc)) (λ _. Keeps-refl t))

  on_state-Keeps : (state : PeerState) (t : Tunnel P) → Keeps t (on_state state t)
  unfolding on_state
  on_state-Keeps PeerState.connected t = maybe_open-Keeps t
  on_state-Keeps PeerState.failed t = finish-Keeps CloseReason.failure t
  on_state-Keeps PeerState.disconnected t = finish-Keeps CloseReason.remote t
  on_state-Keeps PeerState.closed t = finish-Keeps CloseReason.remote t
  on_state-Keeps PeerState.other_peer_state t = Keeps-refl t

  on_event-Keeps : (e : PeerEvent) (t : Tunnel P) → Keeps t (on_event e t)
  unfolding on_event on_channel_open
  on_event-Keeps channel_open t =
      if_holds (Keeps t) t.opened (λ _. Keeps-refl t) (λ e. opening-Keeps t e)
  on_event-Keeps channel_close t = finish-Keeps CloseReason.remote t
  on_event-Keeps other_channel_event t = Keeps-refl t
  on_event-Keeps (connection_state state) t = on_state-Keeps state t
  on_event-Keeps ice_failed t = finish-Keeps CloseReason.failure t
  on_event-Keeps other_peer_event t = Keeps-refl t

  on_message-Keeps : (m : PeerMessage) (t : Tunnel P) → Keeps t (on_message m t)
  unfolding on_message
  on_message-Keeps (channel_message b) t = push_back-Keeps (message b) t refl refl
  on_message-Keeps other_message t = Keeps-refl t

  write_step-Keeps : (t t' : Tunnel P) → write_step t ≡ some t' → Keeps t t'
  unfolding write_step
  write_step-Keeps t t' =
      polled_holds (Keeps t) (P.poll_write t.pc)
        (λ b pc _.
          Keeps-trans t (record t { pc = pc }) _ (pc-Keeps pc t)
            (push_back-Keeps (send_datagram b) (record t { pc = pc }) refl refl))
        t'

  drain_writes-Keeps : (t : Tunnel P) → Keeps t (drain_writes t)
  unfolding drain_writes
  drain_writes-Keeps t = while_some_keeps Keeps-IsPreorder write_step write_step-Keeps _ t

  -- A round that takes an item: past the end it breaks, else it handles the item.
  round-Keeps :
      (pc : P.Connection) (t : Tunnel P) (handled : Tunnel P → Tunnel P)
      → ((u : Tunnel P) → Keeps u (handled u))
      → Keeps t (
          after {E = Unit {0}} (
            if t.finished
            then done false (record t { pc = pc })
            else done true (handled (record t { pc = pc }))))
  round-Keeps pc t handled h =
      if_holds (λ (r : Round P). Keeps t (after r)) t.finished (λ _. pc-Keeps pc t)
        (λ _. Keeps-trans t (record t { pc = pc }) _ (pc-Keeps pc t) (h (record t { pc = pc })))

  event_step-Keeps : (t : Tunnel P) → Keeps t (after (event_step t))
  unfolding event_step
  event_step-Keeps t =
      option_holds (λ (r : Round P). Keeps t (after r)) (P.poll_peer_event t.pc) (λ _. Keeps-refl t)
        (λ x _. round-Keeps x.1 t (on_event x.0) (on_event-Keeps x.0))

  read_step-Keeps : (t : Tunnel P) → Keeps t (after (read_step t))
  unfolding read_step
  read_step-Keeps t =
      option_holds (λ (r : Round P). Keeps t (after r)) (P.poll_read t.pc) (λ _. Keeps-refl t)
        (λ x _. round-Keeps x.1 t (on_message x.0) (on_message-Keeps x.0))

  drain_events-Keeps : (t : Tunnel P) → Keeps t (drain_events t)
  unfolding drain_events
  drain_events-Keeps t = while_ok_keeps Keeps-IsPreorder event_step event_step-Keeps _ t

  drain_reads-Keeps : (t : Tunnel P) → Keeps t (drain_reads t)
  unfolding drain_reads
  drain_reads-Keeps t = while_ok_keeps Keeps-IsPreorder read_step read_step-Keeps _ t

  sample_handshake-Keeps : (t : Tunnel P) → Keeps t (sample_handshake t)
  unfolding sample_handshake
  sample_handshake-Keeps t =
      if_holds (Keeps t) (is_complete t.trace) (λ _. Keeps-refl t)
        (λ _.
          let (ice, dtls, sctp) = phases (P.transports t.pc) in
          Still-Keeps t _
            (record {
              epoch = refl;
              deadline = refl;
              opened = refl;
              finished = refl;
              events = refl;
            })
            (observe-Extends (ms_since_epoch t t.last_now) ice dtls sctp t.opened t.trace))

  pub drain-Keeps : (t : Tunnel P) → Keeps t (drain t)
  unfolding drain
  drain-Keeps t =
      let a = drain_writes t in
      let b = drain_events a in
      let c = drain_writes b in
      let d = drain_reads c in
      let e = maybe_open d in
      Keeps-trans t a _ (drain_writes-Keeps t) (
        Keeps-trans a b _ (drain_events-Keeps a) (
          Keeps-trans b c _ (drain_writes-Keeps b) (
            Keeps-trans c d _ (drain_reads-Keeps c)
              (Keeps-trans d e _ (maybe_open-Keeps d) (sample_handshake-Keeps e)))))
