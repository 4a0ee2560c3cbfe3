-- ===== src/Wasm/Events/Agree.antt =====
-- crates/rtc-tunnel-wasm/src/lib.rs: draining many events at once tells the host what polling them
-- one at a time would have, and takes no event out of order.
use rtc_tunnel.Base.{
  ℕ, suc, zero, ◌≡◌, refl, sym, ◌∙◌, ap, true, false, Option, List, [], ◌∷◌, ◌++◌, if-true,
  if-false, length, ◌==◌, if◌then◌else◌, ◌||◌,
}
use rtc_tunnel.Event.{Event, send_datagram, opened, message, closed}
use rtc_tunnel.Platform.{Platform}
use rtc_tunnel.Direct.State.{DirectTunnel}
use rtc_tunnel.Direct.Output.{poll_event, pop_front}
use rtc_tunnel.Wasm.Abi.{event_none, event_datagram, event_message}
use rtc_tunnel.Wasm.Handle.{TunnelHandle}
use rtc_tunnel.Wasm.Events.{show_event, shown, pulled, descriptor, describe, polled_event, pull}

-- The second word of a descriptor: an address where the kind has a payload.
abbrev address_word : ℕ → ℕ → ℕ
address_word ptr kind = if kind == event_datagram || kind == event_message then ptr else 0

module _ {P : Platform} where
  -- The words that `n` polls in a row would report, from the `i`-th payload on.
  abbrev pub poll_words : (ℕ → ℕ) → ℕ → ℕ → TunnelHandle P → List ℕ
  poll_words place zero i h = []
  poll_words place (suc n) i h =
      let (kind, h') = polled_event h in
      let rest = poll_words place n (suc i) h' in
      if kind == event_none
      then []
      else kind ∷ address_word (place i) kind ∷ length h'.event_payload ∷ h'.event_reason ∷ rest

  pub poll_event-eq :
      (t : DirectTunnel P) (es : List Event)
      → t.events ≡ es
      → poll_event t ≡ ((pop_front es).0, record t { events = (pop_front es).1 })
  unfolding poll_event
  poll_event-eq t es e =
      ap
        (λ (q : List Event).
          let (o, rest) = pop_front q in
          let r : Option Event × DirectTunnel P = (o, record t { events = rest }) in r)
        e

  pub pull-cons :
      (n : ℕ) (t : DirectTunnel P) (x : Event) (es : List Event)
      → t.events ≡ x ∷ es
      → let (taken, t') = pull n (record t { events = es }) in pull (suc n) t ≡ (x ∷ taken, t')
  unfolding pull pulled pop_front
  pull-cons n t x es e = ap (pulled (pull n)) (poll_event-eq t (x ∷ es) e)

  pub pull-nil :
      (n : ℕ) (t : DirectTunnel P) → t.events ≡ [] → pull (suc n) t ≡ ([], record t { events = [] })
  unfolding pull pulled pop_front
  pull-nil n t e = ap (pulled (pull n)) (poll_event-eq t [] e)

  -- One event: its descriptor says what the poll that yields it reports.
  descriptor-polled :
      (ptr : ℕ) (h : TunnelHandle P) (e : Event) (es : List Event)
      → h.tunnel.events ≡ e ∷ es
      → let (kind, h') = polled_event h in
        (descriptor ptr e
          ≡ kind ∷ address_word ptr kind ∷ length h'.event_payload ∷ h'.event_reason ∷ [])
        × ((kind == event_none) ≡ false)
        × (h'.tunnel ≡ record h.tunnel { events = es })
  unfolding polled_event pop_front descriptor show_event
  descriptor-polled ptr h (send_datagram bytes) es e =
      rw (poll_event-eq h.tunnel (send_datagram bytes ∷ es) e) (unfold shown in (refl, refl, refl))
  descriptor-polled ptr h opened es e =
      rw (poll_event-eq h.tunnel (opened ∷ es) e) (unfold shown in (refl, refl, refl))
  descriptor-polled ptr h (message bytes) es e =
      rw (poll_event-eq h.tunnel (message bytes ∷ es) e) (unfold shown in (refl, refl, refl))
  descriptor-polled ptr h (closed reason) es e =
      rw (poll_event-eq h.tunnel (closed reason ∷ es) e) (unfold shown in (refl, refl, refl))

  polled_event-nil :
      (h : TunnelHandle P) → h.tunnel.events ≡ [] → ((polled_event h).0 == event_none) ≡ true
  unfolding polled_event shown pop_front show_event
  polled_event-nil h e = ap (λ r. (shown h r).0 == event_none) (poll_event-eq h.tunnel [] e)

  -- One more event: the words after it are those of the polls after it.
  describe-cons :
      (place : ℕ → ℕ) (n i : ℕ) (h : TunnelHandle P) (x : Event) (es : List Event)
      → h.tunnel.events ≡ x ∷ es
      → describe place (suc i) (pull n (polled_event h).1.tunnel).0
        ≡ poll_words place n (suc i) (polled_event h).1
      → describe place i (pull (suc n) h.tunnel).0 ≡ poll_words place (suc n) i h
  unfolding describe
  describe-cons place n i h x es e ih =
      let d = descriptor-polled (place i) h x es e in
      let h' = (polled_event h).1 in
      ap (λ r. describe place i r.0) (pull-cons n h.tunnel x es e)
      ∙ ap (λ (ws : List ℕ). descriptor (place i) x ++ ws)
          (ap (λ t. describe place (suc i) (pull n t).0) (sym d.2) ∙ ih)
      ∙ ap (λ (ws : List ℕ). ws ++ poll_words place n (suc i) h') d.0
      ∙ sym (if-false [] _ d.1)

  describe-nil :
      (place : ℕ → ℕ) (n i : ℕ) (h : TunnelHandle P)
      → h.tunnel.events ≡ []
      → describe place i (pull (suc n) h.tunnel).0 ≡ poll_words place (suc n) i h
  unfolding describe
  describe-nil place n i h e =
      ap (λ r. describe place i r.0) (pull-nil n h.tunnel e)
      ∙ sym (if-true [] _ (polled_event-nil h e))

  -- Draining at most `n` events writes the words that polling `n` times, up to the first poll that
  -- yields nothing, would report: kinds, payload lengths and close reasons in the same order.
  pub describe-pull :
      (place : ℕ → ℕ) (n i : ℕ) (h : TunnelHandle P) (es : List Event)
      → h.tunnel.events ≡ es
      → describe place i (pull n h.tunnel).0 ≡ poll_words place n i h
  describe-pull place zero i h es e = unfold describe pull in refl
  describe-pull place (suc n) i h [] e = describe-nil place n i h e
  describe-pull place (suc n) i h (x ∷ es) e =
      let d = descriptor-polled (place i) h x es e in
      describe-cons place n i h x es e (
        describe-pull place n (suc i) (polled_event h).1 es
          (ap (λ (t : DirectTunnel P). t.events) d.2))
