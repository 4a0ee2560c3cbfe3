-- ===== src/Config.antt =====
-- crates/rtc-tunnel-core/src/config.rs: what the tunnel is told about its one peer.
use rtc_tunnel.Base.{ℕ, Bool, false, Option, some, Text, text}
use rtc_tunnel.Net.{SocketAddr}

pub record TunnelConfig : Type 0 where
  pub remote : SocketAddr
  pub ice_ufrag : Text
  pub ice_pwd : Text
  pub remote_fingerprint : Text
  pub fingerprint_algorithm : Text
  pub sctp_port : ℕ
  pub stream_id : ℕ
  pub ordered : Bool
  pub max_retransmits : Option ℕ
  pub handshake_timeout_ms : ℕ
  pub disable_fingerprint_verification : Bool

unfoldable pub new : SocketAddr → Text → Text → Text → TunnelConfig
new remote ice_ufrag ice_pwd remote_fingerprint = record {
  remote = remote;
  ice_ufrag = ice_ufrag;
  ice_pwd = ice_pwd;
  remote_fingerprint = remote_fingerprint;
  fingerprint_algorithm = text "sha-256";
  sctp_port = 5000;
  stream_id = 0;
  ordered = false;
  max_retransmits = some 0;
  handshake_timeout_ms = 30_000;
  disable_fingerprint_verification = false;
}
