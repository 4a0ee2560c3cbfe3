-- ===== src/Refpeer/Answerer/Transcript.antt =====
-- crates/rtc-tunnel-refpeer/src/answerer.rs: what the process prints over any rounds.
use rtc_tunnel.Base.{
  ℕ, ◌+◌, ◌≡◌, refl, sym, ap, ◌∙◌, subst, Bool, true, false, none, some, is_some, List, [], ◌∷◌,
  ◌++◌, Bytes, Outcome, done, fail, after, arith, flag, leb, if_holds, option_holds,
  while_some_keeps, append-nil,
}
use rtc_tunnel.Event.{Event, send_datagram, opened, message, closed, SendResult, accepted}
use rtc_tunnel.Event.Count.{opens, closes}
use rtc_tunnel.Platform.{Platform}
use rtc_tunnel.Direct.State.{DirectTunnel}
use rtc_tunnel.Direct.Change.{Evolves}
use rtc_tunnel.Direct.Evolution
use rtc_tunnel.Direct.Input.{tick}
use rtc_tunnel.Direct.Output.{send, poll_event, pop_front}
use rtc_tunnel.Refpeer.Args.{Codecs}
use rtc_tunnel.Refpeer.Numbered.{count_up, count_up-add_one}
use rtc_tunnel.Refpeer.Answerer.{
  open_line, msg_line, closed_line, Failure, Arrival, datagram, would_block, broken, Round,
  elapsed_ms, Answerer, echoed, on_event, polled_event, event_step, take_events, put_on_socket,
  receive_from, conclude, turn, serve,
}
use rtc_tunnel.Refpeer.Answerer.Lines.{
  open_lines, closed_lines, numbers, open_lines-append, closed_lines-append, numbers-append,
  flag-le,
}

-- What has been printed agrees with what the tunnel has announced and not yet handed over, `pending`
-- of the closings waiting to be printed.
pub record Agrees {P : Platform} (pending : ℕ) (a : Answerer P) : Type 0 where
  pub opened_once : open_lines a.printed + opens a.tunnel.events ≡ flag a.tunnel.opened
  pub closed_once :
      closed_lines a.printed + pending + closes a.tunnel.events ≡ flag a.tunnel.finished
  pub numbered : numbers a.printed ≡ count_up a.echoes

module _ {P : Platform} where
  -- A call that evolves the tunnel keeps the agreement.
  evolved-Agrees :
      (n : ℕ) (a : Answerer P) (t : DirectTunnel P)
      → Evolves a.tunnel t
      → Agrees n a
      → Agrees n (record a { tunnel = t })
  evolved-Agrees n a t e g = record {
    opened_once = omega (arith, e.opens_once, g.opened_once);
    closed_once = omega (arith, e.closes_once, g.closed_once);
    numbered = g.numbered;
  }

module _ (k : Codecs) {P : Platform} where
  -- A closing that is to be printed counts as pending.
  abbrev Waiting : Answerer P → Type 0
  Waiting a = Agrees (flag (is_some a.terminal)) a

  echoed-Waiting :
      (b : Bytes) (r : SendResult × DirectTunnel P) (a : Answerer P)
      → Evolves a.tunnel r.1
      → Waiting a
      → Waiting (echoed k b r a)
  unfolding echoed
  echoed-Waiting b (accepted, t) a e g =
      let h = evolved-Agrees (flag (is_some a.terminal)) a t e g in
      let l = msg_line (a.echoes + 1) (k.b64_encode b) ∷ [] in
      record {
        opened_once = omega (arith, h.opened_once, open_lines-append a.printed l);
        closed_once = omega (arith, h.closed_once, closed_lines-append a.printed l);
        numbered =
            numbers-append a.printed l
            ∙ ap (λ ns. ns ++ (a.echoes + 1) ∷ []) g.numbered
            ∙ sym (count_up-add_one a.echoes);
      }
  echoed-Waiting b (SendResult.backpressure, t) a e g =
      evolved-Agrees (flag (is_some a.terminal)) a t e g
  echoed-Waiting b (SendResult.too_large, t) a e g =
      evolved-Agrees (flag (is_some a.terminal)) a t e g
  echoed-Waiting b (SendResult.not_open, t) a e g =
      evolved-Agrees (flag (is_some a.terminal)) a t e g

  abbrev without : List Event → Answerer P → Answerer P
  without es a = record a { tunnel = record a.tunnel { events = es } }

  on_event-Waiting :
      (e : Event) (es : List Event) (a : Answerer P)
      → a.tunnel.events ≡ e ∷ es
      → Waiting a
      → Waiting (on_event k e (without es a))
  unfolding on_event
  on_event-Waiting (send_datagram b) es a q w = record {
    opened_once = omega (arith, w.opened_once, ap opens q);
    closed_once = omega (arith, w.closed_once, ap closes q);
    numbered = w.numbered;
  }
  on_event-Waiting opened es a q w = record {
    opened_once =
        omega (arith, w.opened_once, ap opens q, open_lines-append a.printed (open_line ∷ []));
    closed_once =
        omega (arith, w.closed_once, ap closes q, closed_lines-append a.printed (open_line ∷ []));
    numbered =
        numbers-append a.printed (open_line ∷ []) ∙ append-nil (numbers a.printed) ∙ w.numbered;
  }
  on_event-Waiting (message m) es a q w =
      let t = record a.tunnel { events = es } in
      echoed-Waiting m (send m t) (without es a) (Evolution.send-Evolves m t) (record {
        opened_once = omega (arith, w.opened_once, ap opens q);
        closed_once = omega (arith, w.closed_once, ap closes q);
        numbered = w.numbered;
      })
  on_event-Waiting (closed reason) es a q w = record {
    opened_once = omega (arith, w.opened_once, ap opens q);
    closed_once = omega (arith, w.closed_once, ap closes q, flag-le a.tunnel.finished);
    numbered = w.numbered;
  }

  polled-Waiting :
      (es : List Event) (a b : Answerer P)
      → a.tunnel.events ≡ es
      → (let (e, rest) = pop_front es in
          polled_event k (e, record a.tunnel { events = rest }) a ≡ some b)
      → Waiting a
      → Waiting b
  unfolding polled_event pop_front
  polled-Waiting [] a b q h w = absurd (cc)
  polled-Waiting (e ∷ es) a b q h w =
      let same : on_event k e (without es a) ≡ b = cc in
      subst Waiting same (on_event-Waiting e es a q w)

  event_step-Waiting : (a b : Answerer P) → event_step k a ≡ some b → Waiting a → Waiting b
  unfolding event_step poll_event
  event_step-Waiting a b = polled-Waiting a.tunnel.events a b refl

  take_events-Waiting : (fuel : ℕ) (a : Answerer P) → Waiting a → Waiting (take_events k fuel a)
  unfolding take_events
  take_events-Waiting fuel a =
      while_some_keeps {R = λ a b. Waiting a → Waiting b}
        (record { stay = λ a w. w; go_on = λ a b c p q w. q (p w) }) (event_step k)
        event_step-Waiting fuel a

  -- Nothing is pending at the head of the loop and after it.
  abbrev Settled : Outcome Failure (Answerer P) Bool → Type 0
  Settled r = Agrees 0 (after r)

  receive_from-Settled :
      (elapsed : ℕ) (r : Arrival) (a : Answerer P)
      → Agrees 0 a
      → Settled (receive_from k elapsed r a)
  unfolding receive_from
  receive_from-Settled elapsed (datagram d) a g =
      evolved-Agrees 0 a _ (Evolution.receive-Evolves (elapsed_ms elapsed) d a.tunnel) g
  receive_from-Settled elapsed would_block a g = g
  receive_from-Settled elapsed (broken e) a g = g

  conclude-Settled : (r : Round) (a : Answerer P) → Waiting a → Settled (conclude k r a)
  unfolding conclude
  conclude-Settled r a w =
      option_holds Settled a.terminal
        (λ e.
          receive_from-Settled r.at_receive r.arrival a
            (subst (λ o. Agrees (flag (is_some o)) a) e w))
        (λ name e.
          let g : Agrees 1 a = subst (λ o. Agrees (flag (is_some o)) a) e w in
          let l = closed_line name ∷ [] in
          record {
            opened_once = omega (arith, g.opened_once, open_lines-append a.printed l);
            closed_once = omega (arith, g.closed_once, closed_lines-append a.printed l);
            numbered = numbers-append a.printed l ∙ append-nil (numbers a.printed) ∙ g.numbered;
          })

  put_on_socket-Waiting : (a : Answerer P) → Waiting a → Waiting (put_on_socket k a)
  unfolding put_on_socket
  put_on_socket-Waiting a w = record {
    opened_once = w.opened_once;
    closed_once = w.closed_once;
    numbered = w.numbered;
  }

  turn-Settled : (fuel : ℕ) (r : Round) (a : Answerer P) → Agrees 0 a → Settled (turn k fuel r a)
  unfolding turn
  turn-Settled fuel r a g =
      let fresh = record a { outgoing = []; terminal = none } in
      let g' : Agrees 0 fresh = record {
        opened_once = g.opened_once;
        closed_once = g.closed_once;
        numbered = g.numbered;
      } in
      let ms = elapsed_ms r.at_tick in
      conclude-Settled r _ (
        put_on_socket-Waiting _ (
          take_events-Waiting fuel _
            (evolved-Agrees 0 fresh (tick ms a.tunnel) (Evolution.tick-Evolves ms a.tunnel) g')))

  went_on-Settled :
      (fuel lifetime : ℕ) (rounds : List Round) (o : Outcome Failure (Answerer P) Bool)
      → ((a : Answerer P) → Agrees 0 a → Settled (serve k fuel lifetime rounds a))
      → Settled o
      → Settled (elim o [
        | done true a' ↦ serve k fuel lifetime rounds a'
        | done false a' ↦ done false a'
        | fail e a' ↦ fail e a'
      ])
  went_on-Settled fuel lifetime rounds (done true a) ih g = ih a g
  went_on-Settled fuel lifetime rounds (done false a) ih g = g
  went_on-Settled fuel lifetime rounds (fail e a) ih g = g

  pub serve-Settled :
      (fuel lifetime : ℕ) (rounds : List Round) (a : Answerer P)
      → Agrees 0 a
      → Agrees 0 (after (serve k fuel lifetime rounds a))
  unfolding serve
  serve-Settled fuel lifetime [] a g = g
  serve-Settled fuel lifetime (r ∷ rounds) a g =
      if_holds Settled (leb lifetime r.at_test) (λ _. g)
        (λ _.
          went_on-Settled fuel lifetime rounds (turn k fuel r a)
            (serve-Settled fuel lifetime rounds) (turn-Settled fuel r a g))
