-- ===== src/Bench.antt =====
-- crates/rtc-tunnel-core/examples/core-bench.rs: two tunnels of one process wired to each other. The
-- timing and the report are left out; a panic is `none`.
pub mod Connect
pub mod Flow
pub mod Quiescent
pub mod Exchange
use rtc_tunnel.Base.{
  ℕ, zero, suc, ◌+◌, ◌-◌, ◌%◌, ◌^◌, ◌++◌, Bool, true, false, not, ◌&&◌, ◌||◌, Option, none, some,
  List, [], ◌∷◌, Bytes, Text, text, ok, err, Outcome, done, fail, if◌then◌else◌, leb, ltb, length,
  while_some,
}
use rtc_tunnel.Net.{SocketAddr}
use rtc_tunnel.Config.{TunnelConfig}
use rtc_tunnel.Config
use rtc_tunnel.Event.{
  Event, send_datagram, opened, message, closed, SendResult, accepted, backpressure, too_large,
  not_open, TunnelResult,
}
use rtc_tunnel.Str.{strip_prefix, lines}
use rtc_tunnel.Platform.{Platform}
use rtc_tunnel.Direct.State.{DirectTunnel}
use rtc_tunnel.Direct.Input.{receive, tick}
use rtc_tunnel.Direct.Output.{send, poll_event, set_remote_ice_credentials}
use rtc_tunnel.Direct.Sdp.{offer_sdp, answer_sdp, apply_remote_answer_sdp}
use rtc_tunnel.Direct.Setup.{Surroundings, offer, answer}

-- `"u".repeat(4)`
repeated : ℕ → Text → Text
repeated zero s = []
repeated (suc n) s = s ++ repeated n s

unfoldable pub bench_config : SocketAddr → TunnelConfig
unfolding repeated
bench_config remote =
    record (Config.new remote (repeated 4 (text "u")) (repeated 22 (text "p")) (text "aa:bb")) {
      disable_fingerprint_verification = true;
    }

-- `answer_value`: behind the first line's prefix.
unfoldable pub first_value : Text → List Text → Option Text
first_value name [] = none
first_value name (line ∷ rest) =
    let later = first_value name rest in
    elim (strip_prefix name line) [ some value ↦ some value | none ↦ later ]

unfoldable pub answer_value : Text → Text → Option Text
answer_value answer name = first_value name (lines answer)

-- The two tunnels, the messages that the answerer received, and `pump`'s `moved`.
pub record Pair (P : Platform) : Type 0 where
  pub offerer : DirectTunnel P
  pub answerer : DirectTunnel P
  pub received : ℕ
  pub moved : Bool

module _ {P : Platform} where
  -- One event out of the offerer.
  unfoldable pub from_offerer : ℕ → Event → Pair P → Pair P
  from_offerer now (send_datagram bytes) p = record p {
    answerer = receive now bytes p.answerer;
    moved = true;
  }
  from_offerer now opened p = p
  from_offerer now (message _) p = p
  from_offerer now (closed _) p = p

  -- One event out of the answerer.
  unfoldable pub from_answerer : ℕ → Event → Pair P → Pair P
  from_answerer now (send_datagram bytes) p = record p {
    offerer = receive now bytes p.offerer;
    moved = true;
  }
  from_answerer now (message _) p = record p { received = p.received + 1 }
  from_answerer now opened p = p
  from_answerer now (closed _) p = p

  unfoldable pub took_offerer : ℕ → Option Event × DirectTunnel P → Pair P → Option (Pair P)
  took_offerer now (none, t) p = none
  took_offerer now (some e, t) p = some (from_offerer now e (record p { offerer = t }))

  unfoldable pub took_answerer : ℕ → Option Event × DirectTunnel P → Pair P → Option (Pair P)
  took_answerer now (none, t) p = none
  took_answerer now (some e, t) p = some (from_answerer now e (record p { answerer = t }))

  unfoldable pub offerer_step : ℕ → Pair P → Option (Pair P)
  offerer_step now p = took_offerer now (poll_event p.offerer) p

  unfoldable pub answerer_step : ℕ → Pair P → Option (Pair P)
  answerer_step now p = took_answerer now (poll_event p.answerer) p

  -- The two loops of `pump`: neither queues an event on the tunnel that it polls.
  unfoldable pub drain_offerer : ℕ → Pair P → Pair P
  drain_offerer now p = while_some (offerer_step now) (suc (length p.offerer.events)) p

  unfoldable pub drain_answerer : ℕ → Pair P → Pair P
  drain_answerer now p = while_some (answerer_step now) (suc (length p.answerer.events)) p

  -- One round of `while moved`.
  unfoldable pub pump_round : ℕ → Pair P → Pair P
  pump_round now p = drain_answerer now (drain_offerer now (record p { moved = false }))

  unfoldable pub pump_rounds : ℕ → ℕ → Pair P → Pair P
  pump_rounds zero now p = p
  pump_rounds (suc fuel) now p =
      let q = pump_round now p in let rest = pump_rounds fuel now q in if q.moved then rest else q

  -- `pump`
  unfoldable pub pump_pair : ℕ → ℕ → Pair P → Pair P
  pump_pair fuel now p = pump_rounds fuel now (record p { moved = true })

  -- The body of the handshake's loop, up to its last assertion.
  unfoldable pub handshake_round : ℕ → ℕ → Pair P → Option (Pair P)
  handshake_round fuel now p =
      let q = pump_pair fuel now p in
      if q.offerer.finished || q.answerer.finished
      then none
      else (let now' = now + 1 in
          let r = record q { offerer = tick now' q.offerer; answerer = tick now' q.answerer } in
          if ltb now' 20_000 then some r else none)

  -- `while !(offerer.is_open() && answerer.is_open())`, with `now`; the last assertion bounds it.
  unfoldable pub handshake : ℕ → ℕ → ℕ → Pair P → Option (Pair P × ℕ)
  handshake fuel zero now p = if p.offerer.opened && p.answerer.opened then some (p, now) else none
  handshake fuel (suc left) now p =
      if p.offerer.opened && p.answerer.opened
      then some (p, now)
      else elim (handshake_round fuel now p) [
        | none ↦ none
        | some q ↦ handshake fuel left (now + 1) q
      ]
