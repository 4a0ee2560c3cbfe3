-- ===== src/Bench/Flow.antt =====
-- crates/rtc-tunnel-core/examples/core-bench.rs: the throughput loop.
use rtc_tunnel.Base.{
  ℕ, zero, suc, ◌+◌, ◌-◌, ◌%◌, ◌^◌, Bool, true, false, ◌&&◌, Option, none, some, Bytes,
  if◌then◌else◌, ltb,
}
use rtc_tunnel.Event.{SendResult, accepted, backpressure, too_large, not_open}
use rtc_tunnel.Platform.{Platform}
use rtc_tunnel.Direct.State.{DirectTunnel}
use rtc_tunnel.Direct.Output.{send}
use rtc_tunnel.Bench.{Pair, pump_pair}

-- The throughput loop: `pair.received` is `delivered`, `refused` is `backpressure`.
pub record Flow (P : Platform) : Type 0 where
  pub pair : Pair P
  pub sent : ℕ
  pub refused : ℕ

module _ {P : Platform} where
  -- The `match` on what `send` returns, and whether the loop goes on.
  unfoldable pub counted : SendResult × DirectTunnel P → Flow P → Option (Bool × Flow P)
  counted (accepted, t) f =
      some (true, record f { pair = record f.pair { offerer = t }; sent = f.sent + 1 })
  counted (backpressure, t) f =
      some (false, record f { pair = record f.pair { offerer = t }; refused = f.refused + 1 })
  counted (too_large, t) f = none
  counted (not_open, t) f = none

  -- `sent < total && sent - (delivered as usize) < window`, where the subtraction wraps around.
  unfoldable pub has_room : ℕ → ℕ → Flow P → Bool
  has_room total window f =
      ltb f.sent total && ltb ((f.sent + 2 ^ 64 - f.pair.received) % 2 ^ 64) window

  unfoldable pub fill : ℕ → ℕ → Bytes → ℕ → Flow P → Option (Flow P)
  fill total window payload zero f = some f
  fill total window payload (suc fuel) f =
      if has_room total window f
      then elim (counted (send payload f.pair.offerer) f) [
        | none ↦ none
        | some (false, g) ↦ some g
        | some (true, g) ↦ fill total window payload fuel g
      ]
      else some f

  -- The body of `while delivered < total`: `sent` counts up to the total, which bounds the fuel.
  unfoldable pub deliver_round : ℕ → ℕ → ℕ → Bytes → ℕ → Flow P → Option (Flow P)
  deliver_round pumps total window payload now f =
      elim (fill total window payload (total - f.sent) f) [
        | none ↦ none
        | some g ↦ some (record g { pair = pump_pair pumps now g.pair })
      ]

  unfoldable pub deliver_all : ℕ → ℕ → ℕ → Bytes → ℕ → ℕ → Flow P → Option (Flow P)
  deliver_all pumps total window payload zero now f = some f
  deliver_all pumps total window payload (suc fuel) now f =
      if ltb f.pair.received total
      then elim (deliver_round pumps total window payload now f) [
        | none ↦ none
        | some g ↦ deliver_all pumps total window payload fuel (now + 1) g
      ]
      else some f
