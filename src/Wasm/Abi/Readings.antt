-- ===== src/Wasm/Abi/Readings.antt =====
-- crates/rtc-tunnel-wasm/src/lib.rs: clock readings at the boundary.
use rtc_tunnel.Base.{ℕ, ◌^◌, ◌<◌, ◌≡◌, false, arith}
use rtc_tunnel.Wasm.Abi.{
  Float, nan, infinity, minus_infinity, positive, negative, reading, as_u64, max_zero,
}

reading_lt : (x : Float) → reading x < 2 ^ 64
unfolding reading as_u64 max_zero
reading_lt nan = omega arith
reading_lt infinity = omega arith
reading_lt minus_infinity = omega arith
reading_lt (positive m f) = omega arith
reading_lt (negative m f) = omega arith

-- A whole number of milliseconds below 2^64 is passed on as it is, and whatever number the host
-- passes, its reading is below 2^64.
pub reading_bounded :
    (n : ℕ) (x : Float) → n < 2 ^ 64 → (reading (positive n false) ≡ n) × (reading x < 2 ^ 64)
unfolding reading as_u64 max_zero
reading_bounded n x h = (omega arith, reading_lt x)
