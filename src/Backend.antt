-- ===== src/Backend.antt =====
-- crates/rtc-tunnel-core/src/tunnel.rs: the tunnel over the umbrella crate's peer connection.
pub mod Peer
pub mod State
pub mod Calls
pub mod Keeps
pub mod Setup
pub mod Host
