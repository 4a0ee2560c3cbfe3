-- ===== src/Wasm.antt =====
-- crates/rtc-tunnel-wasm/src/lib.rs: the C ABI over the tunnel for bare WebAssembly.
pub mod Abi
pub mod Create
pub mod Handle
pub mod Refine
pub mod Memory
pub mod Events
