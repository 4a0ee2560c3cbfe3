-- ===== src/Backend/Host.antt =====
-- crates/rtc-tunnel-core/src/tunnel.rs: any sequence of calls on a tunnel that a constructor returned
-- announces `Opened` and `Closed` at most once each.
pub mod Once
pub mod Silent
use rtc_tunnel.Base.{
  ℕ, ◌+◌, ◌≡◌, refl, sym, ap, ◌∙◌, Bool, true, false, ◌⊎◌, inl, inr, Option, none, some, List, [],
  ◌∷◌, ◌++◌, Bytes, Text, Result, ok, err, done, fail, Outcome, after, flag, arith, ltb,
  if◌then◌else◌, is_empty, differ, ◌||◌,
}
use rtc_tunnel.Net.{SocketAddr, Instant}
use rtc_tunnel.Config.{TunnelConfig}
use rtc_tunnel.Event.{Event, TunnelError, TunnelResult}
use rtc_tunnel.Event.Count.{opens, closes, opens-append, closes-append}
use rtc_tunnel.Direct.Setup.{and_then, built, Surroundings, epoch_of}
use rtc_tunnel.Direct.Host.{hand}
use rtc_tunnel.Direct.Host.Ledger.{popped}
use rtc_tunnel.Direct.Output.{pop_front}
use rtc_tunnel.Backend.Peer.{Peer}
use rtc_tunnel.Backend.State.{Tunnel, drain}
use rtc_tunnel.Backend.Calls.{
  receive, receive_deferred, finish_input_batch, tick, send, close, poll_event, apply_remote_answer,
  applied, apply_remote_answer_sdp, set_remote, set_send_buffer_cap, negotiated_cipher_suite,
}
use rtc_tunnel.Backend.Keeps.{Keeps, drain-Keeps}
use rtc_tunnel.Backend.Keeps.Calls.{
  receive-Keeps, receive_deferred-Keeps, finish_input_batch-Keeps, tick-Keeps, send-Keeps,
  close-Keeps, apply_remote_answer_sdp-Keeps, applied-Keeps, set_remote-Keeps,
  set_send_buffer_cap-Keeps, negotiated_cipher_suite-Keeps, apply_remote_answer-Keeps,
}
use rtc_tunnel.Backend.Setup.{initial, construct, offerer, answerer, answered, new, or_peer}

-- What a host may call on the tunnel that changes it.
pub data Call (P : Peer) : Type 0 where
  feeds : ℕ → Bytes → Call P
  feeds_deferred : ℕ → Bytes → Call P
  ends_batch : Call P
  passes_time : ℕ → Call P
  submits : Bytes → Call P
  shuts : Call P
  takes_event : Call P
  sets_remote : SocketAddr → Call P
  sets_cap : ℕ → Call P
  names_cipher : Call P
  answers_with : P.Description → Call P
  answers : Text → Call P

pub record Session (P : Peer) : Type 0 where
  pub handed : List Event
  pub tunnel : Tunnel P

abbrev pub start : {P : Peer} → Tunnel P → Session P
start t = record { handed = []; tunnel = t }

-- What is returned has the property, if anything is.
abbrev Returns : {A : Type 0} → (A → Type 0) → TunnelResult A → Type 0
Returns Holds (ok a) = Holds a
Returns Holds (err e) = Unit {0}

module _ {P : Peer} where
  abbrev pub history : Session P → List Event
  history s = s.handed ++ s.tunnel.events

  unfoldable pub step : Call P → Session P → Session P
  step (feeds n d) s = record s { tunnel = receive n d s.tunnel }
  step (feeds_deferred n d) s = record s { tunnel = receive_deferred n d s.tunnel }
  step ends_batch s = record s { tunnel = finish_input_batch s.tunnel }
  step (passes_time n) s = record s { tunnel = tick n s.tunnel }
  step (submits m) s = record s { tunnel = (send m s.tunnel).1 }
  step shuts s = record s { tunnel = close s.tunnel }
  step takes_event s =
      let (e, t) = poll_event s.tunnel in record { handed = hand s.handed e; tunnel = t }
  step (sets_remote a) s = record s { tunnel = set_remote a s.tunnel }
  step (sets_cap n) s = record s { tunnel = set_send_buffer_cap n s.tunnel }
  step names_cipher s = record s { tunnel = (negotiated_cipher_suite s.tunnel).1 }
  step (answers_with d) s = record s { tunnel = after (apply_remote_answer d s.tunnel) }
  step (answers sdp) s = record s { tunnel = after (apply_remote_answer_sdp sdp s.tunnel) }

  unfoldable pub run : List (Call P) → Session P → Session P
  run [] s = s
  run (c ∷ cs) s = run cs (step c s)

  -- One `Closed` if the tunnel has finished and none if not, and likewise `Opened`.
  abbrev Announced : List Event → Tunnel P → Type 0
  Announced es t = (closes es ≡ flag t.finished) × (opens es ≡ flag t.opened)

  Keeps-Announced :
      (s : Session P) (t : Tunnel P)
      → Keeps s.tunnel t
      → Announced (history s) s.tunnel
      → Announced (s.handed ++ t.events) t
  Keeps-Announced s t k a = (
    omega (
      arith,
      a.0,
      k.closes_once,
      closes-append s.handed t.events,
      closes-append s.handed s.tunnel.events,
    ),
    omega (
      arith,
      a.1,
      k.opens_once,
      opens-append s.handed t.events,
      opens-append s.handed s.tunnel.events,
    ),
  )

  step-Announced :
      (c : Call P) (s : Session P)
      → Announced (history s) s.tunnel
      → Announced (history (step c s)) (step c s).tunnel
  unfolding step
  step-Announced (feeds n d) s = Keeps-Announced s _ (receive-Keeps n d s.tunnel)
  step-Announced (feeds_deferred n d) s = Keeps-Announced s _ (receive_deferred-Keeps n d s.tunnel)
  step-Announced ends_batch s = Keeps-Announced s _ (finish_input_batch-Keeps s.tunnel)
  step-Announced (passes_time n) s = Keeps-Announced s _ (tick-Keeps n s.tunnel)
  step-Announced (submits m) s = Keeps-Announced s _ (send-Keeps m s.tunnel)
  step-Announced shuts s = Keeps-Announced s _ (close-Keeps s.tunnel)
  step-Announced takes_event s =
      unfold poll_event in
      λ a. let same = popped s.tunnel.events s.handed in (ap closes same ∙ a.0, ap opens same ∙ a.1)
  step-Announced (sets_remote a) s = Keeps-Announced s _ (set_remote-Keeps a s.tunnel)
  step-Announced (sets_cap n) s = Keeps-Announced s _ (set_send_buffer_cap-Keeps n s.tunnel)
  step-Announced names_cipher s = Keeps-Announced s _ (negotiated_cipher_suite-Keeps s.tunnel)
  step-Announced (answers_with d) s = Keeps-Announced s _ (apply_remote_answer-Keeps d s.tunnel)
  step-Announced (answers sdp) s = Keeps-Announced s _ (apply_remote_answer_sdp-Keeps sdp s.tunnel)

  run-Announced :
      (cs : List (Call P)) (s : Session P)
      → Announced (history s) s.tunnel
      → Announced (history (run cs s)) (run cs s).tunnel
  unfolding run
  run-Announced [] s a = a
  run-Announced (c ∷ cs) s a = run-Announced cs (step c s) (step-Announced c s a)
