-- ===== src/Host.antt =====
-- scripts/wasm-std and crates/rtc-tunnel-wasm/src/entropy.rs: the clock and the randomness that a bare
-- wasm host supplies.
pub mod Time
pub mod Entropy
