-- ===== src/Direct.antt =====
-- crates/rtc-tunnel-core/src/direct/mod.rs: the tunnel over directly driven ICE, DTLS and SCTP.
pub mod State
pub mod Change
pub mod Pump
pub mod Sctp
pub mod Evolution
pub mod Input
pub mod Output
pub mod Sdp
pub mod Verify
pub mod Setup
pub mod Host
