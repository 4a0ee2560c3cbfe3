-- ===== src/Wasm/Refine.antt =====
-- crates/rtc-tunnel-wasm/src/lib.rs: whatever is called through the C ABI, the handle's tunnel is one
-- that the same calls on the tunnel itself lead to.
pub mod Safety
use rtc_tunnel.Base.{
  ℕ, zero, suc, ◌≡◌, refl, ◌∙◌, sym, ap, Bool, Option, none, some, List, [], ◌∷◌, ◌++◌, Bytes,
  if_holds,
}
use rtc_tunnel.Event.{Event, send_datagram, opened, message, closed}
use rtc_tunnel.Platform.{Platform}
use rtc_tunnel.Direct.State.{DirectTunnel}
use rtc_tunnel.Direct.Output.{poll_event, pop_front}
use rtc_tunnel.Direct.Host.{
  HostCall, receives, receives_deferred, finishes_batch, ticks, sends, closes_tunnel, polls,
  sets_cap, Session, after_poll, step, run,
}
use rtc_tunnel.Wasm.Abi.{Float, reading, slice_from}
use rtc_tunnel.Wasm.Handle.{
  TunnelHandle, rtc_tunnel_input, rtc_tunnel_input_deferred, rtc_tunnel_finish_input_batch,
  rtc_tunnel_tick, rtc_tunnel_send, rtc_tunnel_close, rtc_tunnel_set_send_buffer_cap,
  rtc_tunnel_cipher_len, rtc_tunnel_cipher_copy, cipher_name,
}
use rtc_tunnel.Wasm.Events.{
  show_event, shown, polled_event, rtc_tunnel_poll_event, pull, drain_into, rtc_tunnel_drain_events,
}
use rtc_tunnel.Wasm.Events.Agree.{poll_event-eq, pull-cons, pull-nil}

-- The calls of the C ABI that change a handle.
pub data AbiCall : Type 0 where
  calls_input : Float → Option Bytes → AbiCall
  calls_input_deferred : Float → Option Bytes → AbiCall
  calls_finish_input_batch : AbiCall
  calls_tick : Float → AbiCall
  calls_send : Option Bytes → AbiCall
  calls_close : AbiCall
  calls_set_send_buffer_cap : ℕ → AbiCall
  calls_poll_event : AbiCall
  calls_drain_events : ℕ → AbiCall
  calls_cipher_len : AbiCall
  calls_cipher_copy : Bool → ℕ → AbiCall

abbrev pub times : ℕ → List HostCall
times zero = []
times (suc n) = polls ∷ times n

-- What the call is to the tunnel.
abbrev pub on_tunnel : AbiCall → List HostCall
on_tunnel (calls_input x d) = receives (reading x) (slice_from d) ∷ []
on_tunnel (calls_input_deferred x d) = receives_deferred (reading x) (slice_from d) ∷ []
on_tunnel calls_finish_input_batch = finishes_batch ∷ []
on_tunnel (calls_tick x) = ticks (reading x) ∷ []
on_tunnel (calls_send d) = sends (slice_from d) ∷ []
on_tunnel calls_close = closes_tunnel ∷ []
on_tunnel (calls_set_send_buffer_cap n) = sets_cap n ∷ []
on_tunnel calls_poll_event = polls ∷ []
on_tunnel (calls_drain_events n) = times n
on_tunnel calls_cipher_len = []
on_tunnel (calls_cipher_copy _ _) = []

abbrev pub all_on_tunnel : List AbiCall → List HostCall
all_on_tunnel [] = []
all_on_tunnel (c ∷ cs) = on_tunnel c ++ all_on_tunnel cs

module _ {P : Platform} where
  -- A call through the ABI, with where the payloads of a drain lie.
  abbrev pub call : (ℕ → ℕ) → AbiCall → Option (TunnelHandle P) → Option (TunnelHandle P)
  call place (calls_input x d) = rtc_tunnel_input x d
  call place (calls_input_deferred x d) = rtc_tunnel_input_deferred x d
  call place calls_finish_input_batch = rtc_tunnel_finish_input_batch
  call place (calls_tick x) = rtc_tunnel_tick x
  call place (calls_send d) = λ h. (rtc_tunnel_send d h).1
  call place calls_close = rtc_tunnel_close
  call place (calls_set_send_buffer_cap n) = rtc_tunnel_set_send_buffer_cap n
  call place calls_poll_event = λ h. (rtc_tunnel_poll_event h).1
  call place (calls_drain_events n) = λ h. (rtc_tunnel_drain_events place n h).1
  call place calls_cipher_len = λ h. (rtc_tunnel_cipher_len h).1
  call place (calls_cipher_copy null size) = λ h. (rtc_tunnel_cipher_copy null size h).1

  abbrev pub call_all : (ℕ → ℕ) → List AbiCall → Option (TunnelHandle P) → Option (TunnelHandle P)
  call_all place [] h = h
  call_all place (c ∷ cs) h = call_all place cs (call place c h)

  -- A call on no handle leaves none.
  pub call-none : (place : ℕ → ℕ) (c : AbiCall) → call place c none ≡ none
  call-none place (calls_input x d) = unfold rtc_tunnel_input in refl
  call-none place (calls_input_deferred x d) = unfold rtc_tunnel_input_deferred in refl
  call-none place calls_finish_input_batch = unfold rtc_tunnel_finish_input_batch in refl
  call-none place (calls_tick x) = unfold rtc_tunnel_tick in refl
  call-none place (calls_send d) = unfold rtc_tunnel_send in refl
  call-none place calls_close = unfold rtc_tunnel_close in refl
  call-none place (calls_set_send_buffer_cap n) = unfold rtc_tunnel_set_send_buffer_cap in refl
  call-none place calls_poll_event = unfold rtc_tunnel_poll_event in refl
  call-none place (calls_drain_events n) = unfold rtc_tunnel_drain_events in refl
  call-none place calls_cipher_len = unfold rtc_tunnel_cipher_len in refl
  call-none place (calls_cipher_copy is_null size) = unfold rtc_tunnel_cipher_copy in refl

  pub run-append : (xs ys : List HostCall) (s : Session P) → run (xs ++ ys) s ≡ run ys (run xs s)
  unfolding run
  run-append [] ys s = refl
  run-append (x ∷ xs) ys s = run-append xs ys (step x s)

  shown-tunnel :
      (h : TunnelHandle P) (r : Option Event × DirectTunnel P) → (shown h r).1.tunnel ≡ r.1
  unfolding shown show_event
  shown-tunnel h (none, t) = refl
  shown-tunnel h (some (send_datagram _), t) = refl
  shown-tunnel h (some opened, t) = refl
  shown-tunnel h (some (message _), t) = refl
  shown-tunnel h (some (closed _), t) = refl

  polled_tunnel :
      (s : Session P) (es : List Event)
      → s.tunnel.events ≡ es
      → (after_poll s).tunnel ≡ record s.tunnel { events = (pop_front es).1 }
  unfolding after_poll
  polled_tunnel s es e =
      ap (λ (r : Option Event × DirectTunnel P). r.1) (poll_event-eq s.tunnel es e)

  -- Polls of an empty queue.
  times-nil : (n : ℕ) (s : Session P) → s.tunnel.events ≡ [] → (run (times n) s).tunnel ≡ s.tunnel
  unfolding run step pop_front
  times-nil zero s e = refl
  times-nil (suc n) s e =
      let q = polled_tunnel s [] e in
      times-nil n (after_poll s) (ap (λ (t : DirectTunnel P). t.events) q)
      ∙ q
      ∙ ap (λ es. record s.tunnel { events = es }) (sym e)

  pull-times :
      (n : ℕ) (s : Session P) (es : List Event)
      → s.tunnel.events ≡ es
      → (pull n s.tunnel).1 ≡ (run (times n) s).tunnel
  unfolding run step pop_front
  pull-times zero s es e = unfold pull in refl
  pull-times (suc n) s [] e =
      ap (λ r. r.1) (pull-nil n s.tunnel e)
      ∙ ap (λ es. record s.tunnel { events = es }) (sym e)
      ∙ sym (times-nil (suc n) s e)
  pull-times (suc n) s (x ∷ es) e =
      let q = polled_tunnel s (x ∷ es) e in
      ap (λ r. r.1) (pull-cons n s.tunnel x es e)
      ∙ ap (λ t. (pull n t).1) (sym q)
      ∙ pull-times n (after_poll s) es (ap (λ (t : DirectTunnel P). t.events) q)

  -- The handle has the tunnel of the session.
  abbrev pub Mirrors : Session P → Option (TunnelHandle P) → Type 0
  Mirrors s h = (o : TunnelHandle P) × (h ≡ some o) × (o.tunnel ≡ s.tunnel)

  pub call-Mirrors :
      (place : ℕ → ℕ) (c : AbiCall) (h : TunnelHandle P) (s : Session P)
      → h.tunnel ≡ s.tunnel
      → Mirrors (run (on_tunnel c) s) (call place c (some h))
  unfolding run step
  call-Mirrors place (calls_input x d) h s e = unfold rtc_tunnel_input in (_, refl, rw e refl)
  call-Mirrors place (calls_input_deferred x d) h s e =
      unfold rtc_tunnel_input_deferred in (_, refl, rw e refl)
  call-Mirrors place calls_finish_input_batch h s e =
      unfold rtc_tunnel_finish_input_batch in (_, refl, rw e refl)
  call-Mirrors place (calls_tick x) h s e = unfold rtc_tunnel_tick in (_, refl, rw e refl)
  call-Mirrors place (calls_send d) h s e = unfold rtc_tunnel_send in (_, refl, rw e refl)
  call-Mirrors place calls_close h s e = unfold rtc_tunnel_close in (_, refl, rw e refl)
  call-Mirrors place (calls_set_send_buffer_cap n) h s e =
      unfold rtc_tunnel_set_send_buffer_cap in (_, refl, rw e refl)
  call-Mirrors place calls_poll_event h s e =
      unfold rtc_tunnel_poll_event polled_event after_poll in
      (
        _,
        refl,
        shown-tunnel h (poll_event h.tunnel) ∙ ap (λ (t : DirectTunnel P). (poll_event t).1) e,
      )
  call-Mirrors place (calls_drain_events n) h s e =
      unfold rtc_tunnel_drain_events drain_into in
      (_, refl, ap (λ t. (pull n t).1) e ∙ pull-times n s s.tunnel.events refl)
  call-Mirrors place calls_cipher_len h s e =
      unfold rtc_tunnel_cipher_len cipher_name in (_, refl, e)
  call-Mirrors place (calls_cipher_copy null size) h s e =
      unfold rtc_tunnel_cipher_copy cipher_name in
      if_holds (λ (r : Bytes × Option (TunnelHandle P)). Mirrors s r.1) null (λ _. (h, refl, e))
        (λ _. (_, refl, e))

  -- After any calls through the C ABI the handle is there, and its tunnel is what the corresponding
  -- calls of the tunnel's own methods lead to from the tunnel that it had.
  pub call_all-Mirrors :
      (place : ℕ → ℕ) (cs : List AbiCall) (h : TunnelHandle P) (s : Session P)
      → h.tunnel ≡ s.tunnel
      → Mirrors (run (all_on_tunnel cs) s) (call_all place cs (some h))
  unfolding run
  call_all-Mirrors place [] h s e = (h, refl, e)
  call_all-Mirrors place (c ∷ cs) h s e =
      let m = call-Mirrors place c h s e in
      let rest = call_all-Mirrors place cs m.0 (run (on_tunnel c) s) m.2 in
      (
        rest.0,
        ap (call_all place cs) m.1 ∙ rest.1,
        rest.2
            ∙ ap (λ (r : Session P). r.tunnel)
                (sym (run-append (on_tunnel c) (all_on_tunnel cs) s)),
      )
