-- ===== src/Direct/Host/Ledger.antt =====
-- Over any sequence of host calls: what is announced is announced once, the phases come up in order,
-- and what the trace recorded stays.
use rtc_tunnel.Base.{
  ◌+◌, ◌≡◌, refl, ◌∙◌, sym, ap, ◌⊎◌, inl, true, List, [], ◌∷◌, ◌++◌, flag, arith, append_assoc,
  append-nil,
}
use rtc_tunnel.Event.{Event}
use rtc_tunnel.Event.Count.{opens, closes, opens-append, closes-append}
use rtc_tunnel.Trace.First.{Extends, Extends-refl, Extends-trans}
use rtc_tunnel.Platform.{Platform}
use rtc_tunnel.Direct.State.{DirectTunnel}
use rtc_tunnel.Direct.Change.{IsValid, Evolves, Reported, reported_trans}
use rtc_tunnel.Direct.Output.{poll_event, pop_front}
use rtc_tunnel.Direct.Evolution
use rtc_tunnel.Direct.Host.{
  HostCall, receives, receives_deferred, finishes_batch, ticks, sends, closes_tunnel, polls,
  sets_remote, sets_cap, sets_credentials, applies_answer, Session, hand, after_poll, step, run,
}

-- What a poll hands over leaves the history as it was.
pub popped :
    (es handed : List Event) → let (e, rest) = pop_front es in hand handed e ++ rest ≡ handed ++ es
unfolding pop_front
popped [] handed = refl
popped (e ∷ es) handed = append_assoc handed (e ∷ []) es

module _ {P : Platform} where
  -- Everything that was queued so far: what the host was handed, then what it was not.
  abbrev pub history : Session P → List Event
  history s = s.handed ++ s.tunnel.events

  -- What a session keeps, besides the events that the host has taken.
  pub record Goes (before after : Session P) : Type 0 where
    pub same_epoch : after.tunnel.epoch ≡ before.tunnel.epoch
    pub same_deadline : after.tunnel.handshake_deadline ≡ before.tunnel.handshake_deadline
    pub opened_stays : before.tunnel.opened ≡ true → after.tunnel.opened ≡ true
    pub finished_stays : before.tunnel.finished ≡ true → after.tunnel.finished ≡ true
    pub closes_once :
        closes (history after) + flag before.tunnel.finished
        ≡ closes (history before) + flag after.tunnel.finished
    pub opens_once :
        opens (history after) + flag before.tunnel.opened
        ≡ opens (history before) + flag after.tunnel.opened
    pub same_retransmits : after.tunnel.max_retransmits ≡ before.tunnel.max_retransmits
    pub ice_reported : (after.tunnel.trace.ice_ms ≡ before.tunnel.trace.ice_ms) ⊎ Reported P
    pub trace_kept : Extends before.tunnel.trace after.tunnel.trace
    pub recorded : (new : List Event) × (history after ≡ history before ++ new)
    pub valid_stays : IsValid before.tunnel → IsValid after.tunnel

  evolved-Goes :
      (s : Session P) (t : DirectTunnel P) → Evolves s.tunnel t → Goes s (record s { tunnel = t })
  evolved-Goes s t e = record {
    same_epoch = e.same_epoch;
    same_deadline = e.same_deadline;
    opened_stays = e.opened_stays;
    finished_stays = e.finished_stays;
    closes_once = omega (
      arith,
      e.closes_once,
      closes-append s.handed t.events,
      closes-append s.handed s.tunnel.events,
    );
    opens_once = omega (
      arith,
      e.opens_once,
      opens-append s.handed t.events,
      opens-append s.handed s.tunnel.events,
    );
    trace_kept = e.trace_kept;
    same_retransmits = e.same_retransmits;
    ice_reported = e.ice_reported;
    recorded = (
      e.appended.0,
      ap (λ l. s.handed ++ l) e.appended.1
          ∙ sym (append_assoc s.handed s.tunnel.events e.appended.0),
    );
    valid_stays = e.valid_stays;
  }

  after_poll-Goes : (s : Session P) → Goes s (after_poll s)
  unfolding after_poll poll_event
  after_poll-Goes s =
      let same = popped s.tunnel.events s.handed in
      record {
        same_epoch = refl;
        same_deadline = refl;
        opened_stays = λ h. h;
        finished_stays = λ h. h;
        closes_once = ap (λ l. closes l + flag s.tunnel.finished) same;
        opens_once = ap (λ l. opens l + flag s.tunnel.opened) same;
        trace_kept = Extends-refl s.tunnel.trace;
        same_retransmits = refl;
        ice_reported = inl refl;
        recorded = ([], same ∙ sym (append-nil (history s)));
        valid_stays = λ v. assumption;
      }

  step-Goes : (c : HostCall) (s : Session P) → Goes s (step c s)
  unfolding step
  step-Goes (receives n d) s = evolved-Goes s _ (Evolution.receive-Evolves n d s.tunnel)
  step-Goes (receives_deferred n d) s =
      evolved-Goes s _ (Evolution.receive_deferred-Evolves n d s.tunnel)
  step-Goes finishes_batch s = evolved-Goes s _ (Evolution.finish_input_batch-Evolves s.tunnel)
  step-Goes (ticks n) s = evolved-Goes s _ (Evolution.tick-Evolves n s.tunnel)
  step-Goes (sends m) s = evolved-Goes s _ (Evolution.send-Evolves m s.tunnel)
  step-Goes closes_tunnel s = evolved-Goes s _ (Evolution.close-Evolves s.tunnel)
  step-Goes polls s = after_poll-Goes s
  step-Goes (sets_remote a) s = evolved-Goes s _ (Evolution.set_remote-Evolves a s.tunnel)
  step-Goes (sets_cap n) s = evolved-Goes s _ (Evolution.set_send_buffer_cap-Evolves n s.tunnel)
  step-Goes (sets_credentials u p) s =
      evolved-Goes s _ (Evolution.set_remote_ice_credentials-Evolves u p s.tunnel)
  step-Goes (applies_answer sdp) s =
      evolved-Goes s _ (Evolution.apply_remote_answer_sdp-Evolves sdp s.tunnel)

  Goes-refl : (s : Session P) → Goes s s
  Goes-refl s = record {
    same_epoch = refl;
    same_deadline = refl;
    opened_stays = λ h. h;
    finished_stays = λ h. h;
    closes_once = refl;
    opens_once = refl;
    same_retransmits = refl;
    ice_reported = inl refl;
    trace_kept = Extends-refl s.tunnel.trace;
    recorded = ([], sym (append-nil (history s)));
    valid_stays = λ v. v;
  }

  Goes-trans : (a b c : Session P) → Goes a b → Goes b c → Goes a c
  Goes-trans a b c p q = record {
    same_epoch = q.same_epoch ∙ p.same_epoch;
    same_deadline = q.same_deadline ∙ p.same_deadline;
    opened_stays = λ h. q.opened_stays (p.opened_stays h);
    finished_stays = λ h. q.finished_stays (p.finished_stays h);
    closes_once = omega (arith, p.closes_once, q.closes_once);
    opens_once = omega (arith, p.opens_once, q.opens_once);
    same_retransmits = q.same_retransmits ∙ p.same_retransmits;
    ice_reported =
        reported_trans P a.tunnel.trace b.tunnel.trace c.tunnel.trace p.ice_reported q.ice_reported;
    trace_kept =
        Extends-trans a.tunnel.trace b.tunnel.trace c.tunnel.trace p.trace_kept q.trace_kept;
    recorded = (
      p.recorded.0 ++ q.recorded.0,
      q.recorded.1
          ∙ ap (λ l. l ++ q.recorded.0) p.recorded.1
          ∙ append_assoc (history a) p.recorded.0 q.recorded.0,
    );
    valid_stays = λ v. q.valid_stays (p.valid_stays v);
  }

  pub run-Goes : (cs : List HostCall) (s : Session P) → Goes s (run cs s)
  unfolding run
  run-Goes [] s = Goes-refl s
  run-Goes (c ∷ cs) s = Goes-trans s (step c s) _ (step-Goes c s) (run-Goes cs (step c s))

  -- Whatever the host calls, what was handed over and queued so far stays as it is, in its order, and
  -- only grows at its end.
  pub run-history :
      (cs : List HostCall) (s : Session P)
      → (new : List Event) × (history (run cs s) ≡ history s ++ new)
  run-history cs s = (run-Goes cs s).recorded
