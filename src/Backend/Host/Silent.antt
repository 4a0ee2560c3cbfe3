-- ===== src/Backend/Host/Silent.antt =====
-- crates/rtc-tunnel-core/src/tunnel.rs: what is left of the API once the tunnel has finished.
use rtc_tunnel.Base.{
  ℕ, ◌≡◌, refl, ◌∙◌, ap, true, not, ◌||◌, none, List, [], ◌∷◌, ◌++◌, Bytes, if-true, arith,
}
use rtc_tunnel.Event.{not_open, SendResult}
use rtc_tunnel.Direct.Host.Ledger.{popped}
use rtc_tunnel.Backend.Peer.{Peer}
use rtc_tunnel.Backend.State.{Tunnel}
use rtc_tunnel.Backend.Calls.{
  receive, receive_deferred, finish_input_batch, tick, send, close, next_deadline, poll_event,
  set_remote, set_send_buffer_cap, negotiated_cipher_suite,
}
use rtc_tunnel.Backend.Host.{
  Call, feeds, feeds_deferred, ends_batch, passes_time, submits, shuts, takes_event, answers,
  Session, history, step, run, sets_remote, sets_cap, names_cipher, answers_with,
}

-- The host applies no answer.
abbrev NoAnswer : {P : Peer} → Call P → Type 0
NoAnswer (answers _) = ⊥
NoAnswer (answers_with _) = ⊥
NoAnswer (sets_remote _) = Unit {0}
NoAnswer (sets_cap _) = Unit {0}
NoAnswer names_cipher = Unit {0}
NoAnswer (feeds _ _) = Unit {0}
NoAnswer (feeds_deferred _ _) = Unit {0}
NoAnswer ends_batch = Unit {0}
NoAnswer (passes_time _) = Unit {0}
NoAnswer (submits _) = Unit {0}
NoAnswer shuts = Unit {0}
NoAnswer takes_event = Unit {0}

abbrev pub NoAnswers : {P : Peer} → List (Call P) → Type 0
NoAnswers [] = Unit {0}
NoAnswers (c ∷ cs) = NoAnswer c × NoAnswers cs

module _ {P : Peer} where
  finished_inert :
      (n : ℕ) (d : Bytes) (t : Tunnel P)
      → t.finished ≡ true
      → (receive n d t ≡ t)
        × (receive_deferred n d t ≡ t)
        × (finish_input_batch t ≡ t)
        × (tick n t ≡ t)
        × (close t ≡ t)
        × (send d t ≡ (not_open, t))
        × (next_deadline t ≡ none)
  unfolding receive receive_deferred finish_input_batch tick close send next_deadline
  finished_inert n d t f = (
    if-true t _ f,
    if-true t _ f,
    if-true {b = t.finished || not t.opened} t _ (ground arith),
    if-true t _ f,
    if-true t _ f,
    if-true (not_open, t) _ f,
    if-true none _ f,
  )

  -- Nothing more is queued, and the tunnel stays finished.
  abbrev Silent : Session P → Session P → Type 0
  Silent s s' = (history s' ≡ history s) × (s'.tunnel.finished ≡ true)

  inert :
      (s : Session P) (t : Tunnel P)
      → s.tunnel.finished ≡ true
      → t ≡ s.tunnel
      → Silent s (record s { tunnel = t })
  inert s t f e =
      (ap (λ (u : Tunnel P). s.handed ++ u.events) e, ap (λ (u : Tunnel P). u.finished) e ∙ f)

  step-Silent :
      (c : Call P) (s : Session P) → NoAnswer c → s.tunnel.finished ≡ true → Silent s (step c s)
  unfolding step
  step-Silent (feeds n d) s _ f = inert s _ f (finished_inert n d s.tunnel f).0
  step-Silent (feeds_deferred n d) s _ f = inert s _ f (finished_inert n d s.tunnel f).1
  step-Silent ends_batch s _ f = inert s _ f (finished_inert 0 [] s.tunnel f).2
  step-Silent (passes_time n) s _ f = inert s _ f (finished_inert n [] s.tunnel f).3
  step-Silent (submits m) s _ f =
      inert s _ f (ap (λ (r : SendResult × Tunnel P). r.1) (finished_inert 0 m s.tunnel f).5)
  step-Silent shuts s _ f = inert s _ f (finished_inert 0 [] s.tunnel f).4
  step-Silent takes_event s _ f = unfold poll_event in (popped s.tunnel.events s.handed, f)
  step-Silent (sets_remote a) s _ f = unfold set_remote in (refl, f)
  step-Silent (sets_cap n) s _ f = unfold set_send_buffer_cap in (refl, f)
  step-Silent names_cipher s _ f = unfold negotiated_cipher_suite in (refl, f)
  step-Silent (answers_with d) s never f = absurd never
  step-Silent (answers sdp) s never f = absurd never

  -- Over the peer connection, whatever the host calls on a finished tunnel but a remote answer, given as
  -- a description or as its SDP, nothing more is queued: the events handed over and those still queued stay the same sequence. The tunnel
  -- stays finished.
  pub backend_run-finished :
      (cs : List (Call P)) (s : Session P)
      → NoAnswers cs
      → s.tunnel.finished ≡ true
      → (history (run cs s) ≡ history s) × ((run cs s).tunnel.finished ≡ true)
  unfolding run
  backend_run-finished [] s _ f = (refl, f)
  backend_run-finished (c ∷ cs) s spared f =
      let p = step-Silent c s spared.0 f in
      let q = backend_run-finished cs (step c s) spared.1 p.1 in (q.0 ∙ p.0, q.1)
