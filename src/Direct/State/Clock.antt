-- ===== src/Direct/State/Clock.antt =====
-- crates/rtc-tunnel-core/src/direct/mod.rs: the host's milliseconds and the tunnel's instants.
use rtc_tunnel.Base.{ℕ, ◌^◌, ◌<◌, ◌≡◌, arith}
use rtc_tunnel.Platform.{Platform}
use rtc_tunnel.Direct.State.{DirectTunnel, ms, instant}

module _ {P : Platform} where
  -- A reading of the host's clock, mapped to an instant and back, is the same reading, if it fits 64
  -- bits.
  pub ms-instant : (n : ℕ) (t : DirectTunnel P) → n < 2 ^ 64 → ms t (instant t n) ≡ n
  unfolding ms instant
  ms-instant n t h = omega arith
