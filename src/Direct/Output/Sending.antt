-- ===== src/Direct/Output/Sending.antt =====
-- crates/rtc-tunnel-core/src/direct/mod.rs: when `send` takes a message, what a refusal leaves, and
-- what the other side makes of the payload; and how far off `next_deadline` may be.
use rtc_tunnel.Base.{
  ℕ, ◌+◌, ◌-◌, ◌*◌, ◌^◌, ◌≤◌, ◌<◌, min, ◌≡◌, ◌≢◌, refl, Bool, true, false, not, Option, none, some,
  [], ◌∷◌, Bytes, ok, done, arith, length, ltb, if◌then◌else◌, if_holds, option_holds, Option-cases,
  inl, inr,
}
use rtc_tunnel.Net.{Instant, millis_since}
use rtc_tunnel.Event.{message, SendResult, accepted, max_message_size}
use rtc_tunnel.Platform.{Platform}
use rtc_tunnel.Direct.State.{DirectTunnel, push_back, ms}
use rtc_tunnel.Direct.Pump.{read_chunks, deliver, deliver_payload}
use rtc_tunnel.Direct.Output.{
  framed, usize_max, earliest, buffered, written, over_cap, send_on, send, association_deadline,
  best_deadline, next_deadline,
}

-- There is an instant, and it is at most `d`.
abbrev pub Within : Instant → Option Instant → Type 0
Within d o = (at : Instant) × (o ≡ some at) × (at ≤ d)

pub earliest-Within :
    (d : Instant) (best o : Option Instant) → Within d best → Within d (earliest best o)
unfolding earliest
earliest-Within d none none w = w
earliest-Within d none (some t) w = absurd (ground arith)
earliest-Within d (some b) none w = w
earliest-Within d (some b) (some t) w = (min b t, refl, ground arith)

-- A deadline that is set is read on the counter at most as late as `d`.
pub timed :
    (epoch d : Instant) (o : Option Instant)
    → Within d o
    → d - epoch < 2 ^ 64 * 1_000_000
    → (n : ℕ) × ((elim o [ none ↦ none | some at ↦ some (millis_since epoch at) ]) ≡ some n)
      × (n ≤ millis_since epoch d)
timed epoch d none w h = absurd (ground arith)
timed epoch d (some at) w h =
    let e : at ≡ w.0 = cc (w.1) in (millis_since epoch at, refl, omega (arith, w.2))

module _ {P : Platform} where
  -- What holds of a tunnel and a message when the message is taken.
  pub record Sendable (m : Bytes) (t : DirectTunnel P) (a : P.Association) : Type 0 where
    pub running : t.finished ≡ false
    pub is_open : t.opened ≡ true
    pub fits : length m ≤ max_message_size
    pub held : t.association ≡ some a
    pub stream : P.has_stream t.stream_id a ≡ true
    pub writable : P.is_writable t.stream_id a ≡ true
    pub room : min (usize_max P.wasm32) (buffered P t.stream_id a + length m) ≤ t.send_buffer_cap
    pub taken : (P.write_chunk_with_ppi t.stream_id (framed m).1 (framed m).0 a).0 ≡ true

  written-accepted :
      (r : Bool × P.Association) (t : DirectTunnel P) → (written r t).0 ≡ accepted → r.0 ≡ true
  unfolding written
  written-accepted (true, a) t h = refl
  written-accepted (false, a) t h = cc

  send_on-accepted :
      (m : Bytes) (t : DirectTunnel P) (a : P.Association)
      → t.finished ≡ false
      → t.opened ≡ true
      → length m ≤ max_message_size
      → t.association ≡ some a
      → (send_on a m t).0 ≡ accepted
      → Sendable m t a
  unfolding send_on over_cap
  send_on-accepted m t a f o l e h =
      ground
        (arith, written-accepted (P.write_chunk_with_ppi t.stream_id (framed m).1 (framed m).0 a) t)

  -- A message is accepted only on an open tunnel that has not finished, if it is at most the maximum
  -- size, its stream exists and is writable and takes the write, and the bytes buffered with the
  -- message's stay within the cap.
  pub send-accepted :
      (m : Bytes) (t : DirectTunnel P)
      → (send m t).0 ≡ accepted
      → (a : P.Association) × Sendable m t a
  unfolding send
  send-accepted m t h = elim (Option-cases t.association) [
    | inl e ↦ absurd (ground arith)
    | inr (a, e) ↦
        (a, send_on-accepted m t a (ground arith) (ground arith) (ground arith) e (ground arith))
  ]

  -- The tunnel is as open and as finished as it was, and nothing was queued, unless `accepted`.
  abbrev Refuses : DirectTunnel P → SendResult × DirectTunnel P → Type 0
  Refuses t r =
      r.0 ≢ accepted
      → (r.1.events ≡ t.events) × (r.1.opened ≡ t.opened) × (r.1.finished ≡ t.finished)

  written-Refuses : (r : Bool × P.Association) (t : DirectTunnel P) → Refuses t (written r t)
  unfolding written
  written-Refuses (true, a) t h = absurd (h refl)
  written-Refuses (false, a) t h = (refl, refl, refl)

  send_on-Refuses : (a : P.Association) (m : Bytes) (t : DirectTunnel P) → Refuses t (send_on a m t)
  unfolding send_on
  send_on-Refuses a m t =
      if_holds (Refuses t) (not (P.has_stream t.stream_id a)) (λ _ _. (refl, refl, refl))
        (λ _.
          if_holds (Refuses t) (over_cap m a t) (λ _ _. (refl, refl, refl))
            (λ _.
              if_holds (Refuses t) (not (P.is_writable t.stream_id a)) (λ _ _. (refl, refl, refl))
                (λ _.
                  let (ppi, payload) = framed m in
                  written-Refuses (P.write_chunk_with_ppi t.stream_id payload ppi a) t)))

  -- A message that is not accepted queues nothing, and leaves the tunnel as open and as finished as
  -- it was.
  pub send-refused :
      (m : Bytes) (t : DirectTunnel P)
      → (send m t).0 ≢ accepted
      → ((send m t).1.events ≡ t.events)
        × ((send m t).1.opened ≡ t.opened)
        × ((send m t).1.finished ≡ t.finished)
  unfolding send
  send-refused m t =
      if_holds (Refuses t) t.finished (λ _ _. (refl, refl, refl))
        (λ _.
          if_holds (Refuses t) (not t.opened) (λ _ _. (refl, refl, refl))
            (λ _.
              if_holds (Refuses t) (ltb max_message_size (length m)) (λ _ _. (refl, refl, refl))
                (λ _.
                  option_holds (Refuses t) t.association (λ _ _. (refl, refl, refl))
                    (λ a _. send_on-Refuses a m t))))

  -- A chunk that carries what `send` framed is handed up as the message that was sent, also if that
  -- was empty.
  pub framed-read_chunks :
      (m : Bytes) (chunks : P.Chunks) (t : DirectTunnel P)
      → P.ppi chunks ≡ (framed m).0
      → P.to_payload max_message_size chunks ≡ ok (framed m).1
      → read_chunks (ok (some chunks)) t ≡ done true (push_back (message m) t)
  unfolding framed read_chunks deliver deliver_payload
  framed-read_chunks [] chunks t p q = rw (p, deliver) refl
  framed-read_chunks (b ∷ bs) chunks t p q = rw (p, deliver, q, deliver_payload) refl

  best-Within :
      (t : DirectTunnel P) → t.opened ≡ false → Within t.handshake_deadline (best_deadline t)
  unfolding best_deadline
  best-Within t o =
      let d = t.handshake_deadline in
      let first =
        earliest-Within d (if t.opened then none else some d) (P.ice_poll_timeout t.ice)
          (d, rw o, omega arith) in
      earliest-Within d _ (association_deadline t) (
        if_holds (Within d) t.dtls_started
          (λ _. earliest-Within d _ (P.dtls_poll_timeout t.remote_addr t.dtls) first) (λ _. first))

  -- A tunnel that has neither opened nor finished has a next deadline, and it is no later than the
  -- handshake's, where the handshake's reading fits the counter.
  pub next_deadline-le :
      (t : DirectTunnel P)
      → t.finished ≡ false
      → t.opened ≡ false
      → t.handshake_deadline - t.epoch < 2 ^ 64 * 1_000_000
      → (d : ℕ) × (next_deadline t ≡ some d) × (d ≤ ms t t.handshake_deadline)
  unfolding next_deadline ms
  next_deadline-le t f o w =
      if_holds (λ r. (d : ℕ) × (r ≡ some d) × (d ≤ ms t t.handshake_deadline)) t.finished
        (λ h. absurd (cc))
        (λ _. timed t.epoch t.handshake_deadline (best_deadline t) (best-Within t o) w)
