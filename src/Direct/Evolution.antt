-- ===== src/Direct/Evolution.antt =====
-- Every method of crates/rtc-tunnel-core/src/direct/mod.rs evolves the tunnel, one lemma for each:
-- the events queued are kept, and the phases come up in order and stay up.
mod Finish
mod Drains
mod Dtls
mod Sctp
mod Api
pub use Finish.*
pub use Drains.*
pub use Dtls.*
pub use Sctp.*
pub use Api.*
