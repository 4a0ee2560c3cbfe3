-- ===== src/Refpeer/Answerer/Ends.antt =====
-- crates/rtc-tunnel-refpeer/src/answerer.rs: its loops end.
use rtc_tunnel.Base.{
  ℕ, zero, suc, ◌+◌, ◌≤◌, ◌≡◌, refl, ap, ◌∙◌, ◌⊎◌, inl, inr, Bool, true, false, none, some, List,
  [], ◌∷◌, ◌++◌, map, Bytes, Outcome, done, fail, arith, leb, if_holds, while_some,
}
use rtc_tunnel.Event.{Event, send_datagram, opened, message, closed, SendResult, accepted}
use rtc_tunnel.Platform.{Platform}
use rtc_tunnel.Direct.State.{DirectTunnel}
use rtc_tunnel.Direct.Output.{send, poll_event, pop_front}
use rtc_tunnel.Direct.Output.Messages.{send-Sends}
use rtc_tunnel.Refpeer.Args.{Codecs}
use rtc_tunnel.Refpeer.Answerer.{
  Failure, Round, Answerer, echoed, on_event, polled_event, event_step, take_events, turn, serve,
}

-- How many messages a queue holds.
abbrev is_message : Event → ℕ
is_message (message _) = 1
is_message (send_datagram _) = 0
is_message opened = 0
is_message (closed _) = 0

abbrev messages : List Event → ℕ
messages [] = 0
messages (e ∷ es) = is_message e + messages es

messages-append : (xs ys : List Event) → messages (xs ++ ys) ≡ messages xs + messages ys
messages-append [] ys = omega arith
messages-append (x ∷ xs) ys = omega (arith, messages-append xs ys)

messages-datagrams : (out : List Bytes) → messages (map send_datagram out) ≡ 0
messages-datagrams [] = refl
messages-datagrams (d ∷ ds) = omega (arith, messages-datagrams ds)

-- A reading of the clock at the head of some round has reached the lifetime.
abbrev pub Overdue : ℕ → List Round → Type 0
Overdue lifetime [] = ⊥
Overdue lifetime (r ∷ rounds) = (lifetime ≤ r.at_test) ⊎ Overdue lifetime rounds

module _ {P : Platform} where
  -- The loop has ended, by its test, by a closing or by an error.
  abbrev pub HasEnded : Outcome Failure (Answerer P) Bool → Type 0
  HasEnded (done true a) = ⊥
  HasEnded (done false a) = Unit {0}
  HasEnded (fail e a) = Unit {0}

module _ (k : Codecs) {P : Platform} where
  abbrev without : List Event → Answerer P → Answerer P
  without es a = record a { tunnel = record a.tunnel { events = es } }

  echoed-tunnel :
      (b : Bytes) (r : SendResult × DirectTunnel P) (a : Answerer P) → (echoed k b r a).tunnel ≡ r.1
  unfolding echoed
  echoed-tunnel b (accepted, t) a = refl
  echoed-tunnel b (SendResult.backpressure, t) a = refl
  echoed-tunnel b (SendResult.too_large, t) a = refl
  echoed-tunnel b (SendResult.not_open, t) a = refl

  -- An echo queues no message.
  messages-echo :
      (b : Bytes) (es : List Event) (a : Answerer P)
      → messages (on_event k (message b) (without es a)).tunnel.events ≡ messages es
  unfolding on_event
  messages-echo b es a =
      let t = record a.tunnel { events = es } in
      let s = send-Sends b t in
      ap (λ (u : DirectTunnel P). messages u.events) (echoed-tunnel b (send b t) (without es a))
      ∙ ap messages s.1
      ∙ messages-append es (map send_datagram s.0)
      ∙ omega (arith, messages-datagrams s.0)

  event_step-some :
      (e : Event) (es : List Event) (a : Answerer P)
      → a.tunnel.events ≡ e ∷ es
      → event_step k a ≡ some (on_event k e (without es a))
  unfolding event_step poll_event polled_event pop_front
  event_step-some e es a q =
      ap
        (λ l.
          let (x, rest) = pop_front l in polled_event k (x, record a.tunnel { events = rest }) a)
        q

  event_step-none : (a : Answerer P) → a.tunnel.events ≡ [] → event_step k a ≡ none
  unfolding event_step poll_event polled_event pop_front
  event_step-none a q =
      ap
        (λ l.
          let (x, rest) = pop_front l in polled_event k (x, record a.tunnel { events = rest }) a)
        q

  -- From that fuel on, the loop over the events ends with an empty queue.
  abbrev Empties : Answerer P → Type 0
  Empties a =
      (enough : ℕ) × ((fuel : ℕ) → enough ≤ fuel → (take_events k fuel a).tunnel.events ≡ [])

  stops : (fuel : ℕ) (a : Answerer P) → event_step k a ≡ none → take_events k fuel a ≡ a
  unfolding take_events while_some
  stops zero a e = refl
  stops (suc fuel) a e = ap (λ o. elim o [ none ↦ a | some b ↦ while_some (event_step k) fuel b ]) e

  goes_on :
      (fuel : ℕ) (a b : Answerer P)
      → event_step k a ≡ some b
      → take_events k (suc fuel) a ≡ take_events k fuel b
  unfolding take_events while_some
  goes_on fuel a b e = ap (λ o. elim o [ none ↦ a | some c ↦ while_some (event_step k) fuel c ]) e

  one_more : (a b : Answerer P) → event_step k a ≡ some b → Empties b → Empties a
  one_more a b e (n, h) = (suc n, later)
    where
      later : (fuel : ℕ) → suc n ≤ fuel → (take_events k fuel a).tunnel.events ≡ []
      later zero l = absurd (omega arith)
      later (suc fuel) l =
          ap (λ (u : Answerer P). u.tunnel.events) (goes_on fuel a b e) ∙ h fuel (omega arith)

  empties :
      (m : ℕ) (es : List Event) (a : Answerer P)
      → a.tunnel.events ≡ es
      → messages es ≤ m
      → Empties a
  unfolding on_event
  empties m [] a q l = (
    0,
    λ fuel _. ap (λ (u : Answerer P). u.tunnel.events) (stops fuel a (event_step-none a q)) ∙ q,
  )
  empties m (send_datagram d ∷ es) a q l =
      one_more a _ (event_step-some (send_datagram d) es a q) (empties m es _ refl (omega arith))
  empties m (opened ∷ es) a q l =
      one_more a _ (event_step-some opened es a q) (empties m es _ refl (omega arith))
  empties m (closed r ∷ es) a q l =
      one_more a _ (event_step-some (closed r) es a q) (empties m es _ refl (omega arith))
  empties zero (message b ∷ es) a q l = absurd (omega arith)
  empties (suc m) (message b ∷ es) a q l =
      let next = on_event k (message b) (without es a) in
      one_more a next (event_step-some (message b) es a q)
        (empties m next.tunnel.events next refl (omega (arith, messages-echo b es a)))

  -- The loop over the tunnel's events ends with an empty queue, though each echo may queue datagrams
  -- while it runs: an echo never queues a message.
  pub take_events_ends : (a : Answerer P) → (fuel : ℕ) × ((take_events k fuel a).tunnel.events ≡ [])
  take_events_ends a =
      let e = empties (messages a.tunnel.events) a.tunnel.events a refl (omega arith) in
      (e.0, e.1 e.0 (omega arith))

  went_on-HasEnded :
      (fuel lifetime : ℕ) (rounds : List Round) (o : Outcome Failure (Answerer P) Bool)
      → ((a : Answerer P) → HasEnded (serve k fuel lifetime rounds a))
      → HasEnded (elim o [
        | done true a' ↦ serve k fuel lifetime rounds a'
        | done false a' ↦ done false a'
        | fail e a' ↦ fail e a'
      ])
  went_on-HasEnded fuel lifetime rounds (done true a) ih = ih a
  went_on-HasEnded fuel lifetime rounds (done false a) ih = tt
  went_on-HasEnded fuel lifetime rounds (fail e a) ih = tt

  -- The main loop ends once the clock has reached the lifetime at the head of a round.
  pub serve-HasEnded :
      (fuel lifetime : ℕ) (rounds : List Round) (a : Answerer P)
      → Overdue lifetime rounds
      → HasEnded (serve k fuel lifetime rounds a)
  unfolding serve
  serve-HasEnded fuel lifetime [] a h = absurd h
  serve-HasEnded fuel lifetime (r ∷ rounds) a (inl late) =
      if_holds HasEnded (leb lifetime r.at_test) (λ _. tt) (λ early. absurd (ground arith))
  serve-HasEnded fuel lifetime (r ∷ rounds) a (inr later) =
      if_holds HasEnded (leb lifetime r.at_test) (λ _. tt)
        (λ _.
          went_on-HasEnded fuel lifetime rounds (turn k fuel r a)
            (λ a'. serve-HasEnded fuel lifetime rounds a' later))
