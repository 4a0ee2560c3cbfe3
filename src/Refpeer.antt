-- ===== src/Refpeer.antt =====
-- crates/rtc-tunnel-refpeer/src: the two reference peers.
pub mod Args
pub mod Numbered
pub mod Answerer
pub mod Echo
