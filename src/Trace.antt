-- ===== src/Trace.antt =====
-- crates/rtc-tunnel-core/src/trace.rs: when each phase of the handshake was first seen.
pub mod First
use rtc_tunnel.Base.{ℕ, Bool, not, ◌&&◌, Option, none, some, is_some, if◌then◌else◌}

pub record HandshakeTrace : Type 0 where
  pub start_ms : ℕ
  pub ice_ms : Option ℕ
  pub dtls_ms : Option ℕ
  pub sctp_ms : Option ℕ
  pub opened_ms : Option ℕ

unfoldable pub new : ℕ → HandshakeTrace
new start_ms = record {
  start_ms = start_ms;
  ice_ms = none;
  dtls_ms = none;
  sctp_ms = none;
  opened_ms = none;
}

-- The body of each `observe_*`: an empty field takes the reading, a full one stays.
abbrev pub first : Option ℕ → ℕ → Option ℕ
first none now_ms = some now_ms
first (some ms) now_ms = some ms

unfoldable pub observe_ice : ℕ → HandshakeTrace → HandshakeTrace
observe_ice now_ms t = record t { ice_ms = first t.ice_ms now_ms }

unfoldable pub observe_dtls : ℕ → HandshakeTrace → HandshakeTrace
observe_dtls now_ms t = record t { dtls_ms = first t.dtls_ms now_ms }

unfoldable pub observe_sctp : ℕ → HandshakeTrace → HandshakeTrace
observe_sctp now_ms t = record t { sctp_ms = first t.sctp_ms now_ms }

unfoldable pub observe_open : ℕ → HandshakeTrace → HandshakeTrace
observe_open now_ms t = record t { opened_ms = first t.opened_ms now_ms }

-- `if ready && self.x_ms.is_none() { self.x_ms = Some(now_ms) }`
abbrev first_if : Bool → Option ℕ → ℕ → Option ℕ
first_if ready field now_ms = if ready && not (is_some field) then some now_ms else field

unfoldable pub observe : ℕ → Bool → Bool → Bool → Bool → HandshakeTrace → HandshakeTrace
observe now_ms ice_ready dtls_ready sctp_ready opened t =
    if is_some t.opened_ms then t else record t {
      ice_ms = first_if ice_ready t.ice_ms now_ms;
      dtls_ms = first_if dtls_ready t.dtls_ms now_ms;
      sctp_ms = first_if sctp_ready t.sctp_ms now_ms;
      opened_ms = first_if opened t.opened_ms now_ms;
    }

unfoldable pub is_complete : HandshakeTrace → Bool
is_complete t = is_some t.opened_ms
