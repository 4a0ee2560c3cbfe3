-- ===== src/Direct/Host/Finished.antt =====
-- crates/rtc-tunnel-core/src/direct/mod.rs: what is left of the API once the tunnel has finished.
use rtc_tunnel.Base.{
  ℕ, ◌≡◌, refl, ◌∙◌, ap, true, not, ◌||◌, none, List, [], ◌∷◌, ◌++◌, Bytes, Text, ok, err, after,
  if-true, option_holds, Result, String, arith,
}
use rtc_tunnel.Event.{not_open, SendResult}
use rtc_tunnel.Platform.{Platform}
use rtc_tunnel.Direct.State.{DirectTunnel, with_ice}
use rtc_tunnel.Direct.Input.{receive, receive_deferred, finish_input_batch, tick}
use rtc_tunnel.Direct.Output.{
  send, close, next_deadline, poll_event, set_remote, set_remote_ice_credentials,
  set_send_buffer_cap,
}
use rtc_tunnel.Direct.Sdp.{apply_remote_answer_sdp, parse_answer_fingerprint}
use rtc_tunnel.Direct.Host.{
  HostCall, receives, receives_deferred, finishes_batch, ticks, sends, closes_tunnel, polls,
  sets_remote, sets_cap, sets_credentials, applies_answer, Session, after_poll, step, run,
}
use rtc_tunnel.Direct.Host.Ledger.{history, popped}

module _ {P : Platform} where
  -- Once the tunnel has finished, a datagram, a tick, the end of a batch and `close` leave it exactly
  -- as it is, a message is refused as not open without a change, and there is no next deadline.
  finished_inert :
      (n : ℕ) (d : Bytes) (t : DirectTunnel P)
      → t.finished ≡ true
      → (receive n d t ≡ t)
        × (receive_deferred n d t ≡ t)
        × (finish_input_batch t ≡ t)
        × (tick n t ≡ t)
        × (close t ≡ t)
        × (send d t ≡ (not_open, t))
        × (next_deadline t ≡ none)
  unfolding receive receive_deferred finish_input_batch tick close send next_deadline
  finished_inert n d t f = (
    if-true t _ f,
    if-true t _ f,
    if-true {b = t.finished || not t.opened} t _ (ground arith),
    if-true t _ f,
    if-true t _ f,
    if-true (not_open, t) _ f,
    if-true none _ f,
  )

  -- Nothing more is queued, and the tunnel stays finished.
  abbrev Silent : Session P → Session P → Type 0
  Silent s s' = (history s' ≡ history s) × (s'.tunnel.finished ≡ true)

  inert :
      (s : Session P) (t : DirectTunnel P)
      → s.tunnel.finished ≡ true
      → t ≡ s.tunnel
      → Silent s (record s { tunnel = t })
  inert s t f e = (
    ap (λ (u : DirectTunnel P). s.handed ++ u.events) e,
    ap (λ (u : DirectTunnel P). u.finished) e ∙ f,
  )

  with_ice-Silent :
      (prefix : String) (r : Result Text P.Agent) (s : Session P)
      → s.tunnel.finished ≡ true
      → Silent s (record s { tunnel = after (with_ice prefix r s.tunnel) })
  unfolding with_ice
  with_ice-Silent prefix (ok a) s f = (refl, f)
  with_ice-Silent prefix (err e) s f = (refl, f)

  step-Silent : (c : HostCall) (s : Session P) → s.tunnel.finished ≡ true → Silent s (step c s)
  unfolding step
  step-Silent (receives n d) s f = inert s _ f (finished_inert n d s.tunnel f).0
  step-Silent (receives_deferred n d) s f = inert s _ f (finished_inert n d s.tunnel f).1
  step-Silent finishes_batch s f = inert s _ f (finished_inert 0 [] s.tunnel f).2
  step-Silent (ticks n) s f = inert s _ f (finished_inert n [] s.tunnel f).3
  step-Silent (sends m) s f =
      inert s _ f (ap (λ (r : SendResult × DirectTunnel P). r.1) (finished_inert 0 m s.tunnel f).5)
  step-Silent closes_tunnel s f = inert s _ f (finished_inert 0 [] s.tunnel f).4
  step-Silent polls s f = unfold after_poll poll_event in (popped s.tunnel.events s.handed, f)
  step-Silent (sets_remote a) s f = unfold set_remote in (refl, f)
  step-Silent (sets_cap n) s f = unfold set_send_buffer_cap in (refl, f)
  step-Silent (sets_credentials u p) s f =
      unfold set_remote_ice_credentials in with_ice-Silent "remote credentials: " _ s f
  step-Silent (applies_answer sdp) s f =
      unfold apply_remote_answer_sdp in
      option_holds (λ t. Silent s (record s { tunnel = t })) (parse_answer_fingerprint P sdp)
        (λ _. (refl, f)) (λ _ _. (refl, f))

  -- Whatever the host calls on a finished tunnel, nothing more is queued: the events handed over and
  -- those still queued stay the same sequence. The tunnel stays finished.
  pub run-finished :
      (calls : List HostCall) (s : Session P)
      → s.tunnel.finished ≡ true
      → (history (run calls s) ≡ history s) × ((run calls s).tunnel.finished ≡ true)
  unfolding run
  run-finished [] s f = (refl, f)
  run-finished (c ∷ calls) s f =
      let p = step-Silent c s f in let q = run-finished calls (step c s) p.1 in (q.0 ∙ p.0, q.1)
