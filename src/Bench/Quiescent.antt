-- ===== src/Bench/Quiescent.antt =====
-- crates/rtc-tunnel-core/examples/core-bench.rs: what a round of `pump` leaves.
use rtc_tunnel.Base.{
  ℕ, zero, suc, ◌<◌, ◌≡◌, refl, sym, ap, ◌∙◌, true, false, none, some, List, [], ◌∷◌, arith, length,
  while_some-none, while_some_keeps, if_holds,
}
use rtc_tunnel.Event.{Event, send_datagram, opened, message, closed}
use rtc_tunnel.Platform.{Platform}
use rtc_tunnel.Direct.State.{DirectTunnel}
use rtc_tunnel.Direct.Output.{poll_event, pop_front}
use rtc_tunnel.Bench.{
  Pair, from_offerer, from_answerer, took_offerer, took_answerer, offerer_step, answerer_step,
  drain_offerer, drain_answerer, pump_round, pump_rounds, pump_pair,
}

module _ {P : Platform} (now : ℕ) where
  -- What an event of the offerer does to the pair leaves the offerer alone.
  from_offerer-offerer : (e : Event) (p : Pair P) → (from_offerer now e p).offerer ≡ p.offerer
  unfolding from_offerer
  from_offerer-offerer (send_datagram b) p = refl
  from_offerer-offerer opened p = refl
  from_offerer-offerer (message m) p = refl
  from_offerer-offerer (closed r) p = refl

  from_answerer-answerer : (e : Event) (p : Pair P) → (from_answerer now e p).answerer ≡ p.answerer
  unfolding from_answerer
  from_answerer-answerer (send_datagram b) p = refl
  from_answerer-answerer opened p = refl
  from_answerer-answerer (message m) p = refl
  from_answerer-answerer (closed r) p = refl

  -- Where nothing is marked as moved, an event of the answerer leaves the offerer alone too.
  from_answerer-still :
      (e : Event) (p : Pair P)
      → (from_answerer now e p).moved ≡ false
      → (p.moved ≡ false) × ((from_answerer now e p).offerer ≡ p.offerer)
  unfolding from_answerer
  from_answerer-still (send_datagram b) p h = absurd (cc)
  from_answerer-still opened p h = (h, refl)
  from_answerer-still (message m) p h = (h, refl)
  from_answerer-still (closed r) p h = (h, refl)

  offerer_falls :
      (es : List Event) (p q : Pair P)
      → p.offerer.events ≡ es
      → (let (e, rest) = pop_front es in
          took_offerer now (e, record p.offerer { events = rest }) p ≡ some q)
      → length q.offerer.events < length p.offerer.events
  unfolding pop_front took_offerer
  offerer_falls [] p q e h = absurd (cc)
  offerer_falls (x ∷ es) p q e h =
      let p' = record p { offerer = record p.offerer { events = es } } in
      let same : from_offerer now x p' ≡ q = cc in
      omega (
        arith,
        ap length e,
        ap (λ (t : DirectTunnel P). length t.events) (from_offerer-offerer x p'),
        ap (λ (r : Pair P). length r.offerer.events) same,
      )

  offerer_none :
      (es : List Event) (p : Pair P)
      → (let (e, rest) = pop_front es in
          took_offerer now (e, record p.offerer { events = rest }) p ≡ none)
      → es ≡ []
  unfolding pop_front took_offerer
  offerer_none [] p h = refl
  offerer_none (x ∷ es) p h = absurd (cc)

  -- A round of the second loop shortens the answerer's queue; it leaves the offerer alone unless it
  -- moves a datagram.
  abbrev Answered : Pair P → Pair P → Type 0
  Answered p q =
      (length q.answerer.events < length p.answerer.events)
      × (q.moved ≡ false → (p.moved ≡ false) × (q.offerer ≡ p.offerer))

  answerer_falls :
      (es : List Event) (p q : Pair P)
      → p.answerer.events ≡ es
      → (let (e, rest) = pop_front es in
          took_answerer now (e, record p.answerer { events = rest }) p ≡ some q)
      → Answered p q
  unfolding pop_front took_answerer
  answerer_falls [] p q e h = absurd (cc)
  answerer_falls (x ∷ es) p q e h =
      let p' = record p { answerer = record p.answerer { events = es } } in
      let same : from_answerer now x p' ≡ q = cc in
      (
        omega (
          arith,
          ap length e,
          ap (λ (t : DirectTunnel P). length t.events) (from_answerer-answerer x p'),
          ap (λ (r : Pair P). length r.answerer.events) same,
        ),
        λ still.
            let k = from_answerer-still x p' (ap (λ (r : Pair P). r.moved) same ∙ still) in
            (k.0, sym (ap (λ (r : Pair P). r.offerer) same) ∙ k.1),
      )

  answerer_none :
      (es : List Event) (p : Pair P)
      → (let (e, rest) = pop_front es in
          took_answerer now (e, record p.answerer { events = rest }) p ≡ none)
      → es ≡ []
  unfolding pop_front took_answerer
  answerer_none [] p h = refl
  answerer_none (x ∷ es) p h = absurd (cc)

  drain_offerer-empty : (p : Pair P) → (drain_offerer now p).offerer.events ≡ []
  unfolding drain_offerer offerer_step poll_event
  drain_offerer-empty p =
      let q = drain_offerer now p in
      offerer_none q.offerer.events q (
        while_some-none (offerer_step now) (λ r. length r.offerer.events)
          (λ r r' h. offerer_falls r.offerer.events r r' refl h) (suc (length p.offerer.events)) p
          (omega arith))

  drain_answerer-empty : (p : Pair P) → (drain_answerer now p).answerer.events ≡ []
  unfolding drain_answerer answerer_step poll_event
  drain_answerer-empty p =
      let q = drain_answerer now p in
      answerer_none q.answerer.events q (
        while_some-none (answerer_step now) (λ r. length r.answerer.events)
          (λ r r' h. (answerer_falls r.answerer.events r r' refl h).0)
          (suc (length p.answerer.events)) p (omega arith))

  -- Unless a datagram moves, the answerer's loop leaves the offerer as it was.
  abbrev Leaves : Pair P → Pair P → Type 0
  Leaves p q = q.moved ≡ false → (p.moved ≡ false) × (q.offerer ≡ p.offerer)

  drain_answerer-Leaves : (p : Pair P) → Leaves p (drain_answerer now p)
  unfolding drain_answerer answerer_step poll_event
  drain_answerer-Leaves p =
      while_some_keeps {R = Leaves}
        (record {
          stay = λ p h. (h, refl);
          go_on = λ a b c f g h. let u = g h in let v = f u.0 in (v.0, u.1 ∙ v.1);
        })
        (answerer_step now) (λ r r' h. (answerer_falls r.answerer.events r r' refl h).1)
        (suc (length p.answerer.events)) p

  -- A round of `pump` empties the answerer's queue, and both queues if it moves nothing.
  abbrev pub Quiet : Pair P → Type 0
  Quiet p = (p.answerer.events ≡ []) × (p.moved ≡ false → p.offerer.events ≡ [])

  pump_round-Quiet : (p : Pair P) → Quiet (pump_round now p)
  unfolding pump_round
  pump_round-Quiet p =
      let sent = drain_offerer now (record p { moved = false }) in
      (
        drain_answerer-empty sent,
        λ still.
            ap (λ (t : DirectTunnel P). t.events) (drain_answerer-Leaves sent still).1
            ∙ drain_offerer-empty (record p { moved = false }),
      )

  pump_rounds-Quiet : (fuel : ℕ) (p : Pair P) → Quiet (pump_rounds (suc fuel) now p)
  unfolding pump_rounds
  pump_rounds-Quiet zero p =
      if_holds Quiet (pump_round now p).moved (λ _. pump_round-Quiet p) (λ _. pump_round-Quiet p)
  pump_rounds-Quiet (suc fuel) p =
      if_holds Quiet (pump_round now p).moved (λ _. pump_rounds-Quiet fuel (pump_round now p))
        (λ _. pump_round-Quiet p)

  -- When `pump` stops because a round moved nothing, neither tunnel has an event left to be handed
  -- over, though each datagram that it moves may make the other tunnel queue more.
  pub pump_pair_quiet :
      (fuel : ℕ) (p : Pair P)
      → (pump_pair (suc fuel) now p).moved ≡ false
      → ((pump_pair (suc fuel) now p).offerer.events ≡ [])
        × ((pump_pair (suc fuel) now p).answerer.events ≡ [])
  unfolding pump_pair
  pump_pair_quiet fuel p still =
      let q = pump_rounds-Quiet fuel (record p { moved = true }) in (q.1 still, q.0)
