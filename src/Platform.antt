-- ===== src/Platform.antt =====
-- What crates/rtc-tunnel-core/src/direct/mod.rs calls and the repository does not implement: the
-- crates `rtc-ice`, `rtc-dtls`, `rtc-sctp` and `rtc-crypto`, and the functions of `std` that
-- need Unicode's tables or the grammar of addresses. A call that takes `&mut` returns the object after the call.
use rtc_tunnel.Base.{ℕ, ◌<◌, ◌≡◌, Bool, Option, some, List, Bytes, Text, Result}
use rtc_tunnel.Net.{IpAddr, SocketAddr, Instant}

-- `rtc_ice::state::ConnectionState`, as far as the tunnel tells its states apart.
pub data IceState : Type 0 where
  connected completed not_ready : IceState

-- `rtc_ice::agent::Event` with the instant that it carries.
pub data IceEvent : Type 0 where
  connection_state_change : IceState → Instant → IceEvent
  other_ice_event : Instant → IceEvent

-- `rtc_dtls::endpoint::EndpointEvent`
pub data DtlsEvent : Type 0 where
  handshake_complete : DtlsEvent
  application_data : Bytes → DtlsEvent
  other_dtls_event : DtlsEvent

-- `rtc_sctp::Event`
pub data SctpEvent : Type 0 where
  sctp_connected : SctpEvent
  readable : ℕ → SctpEvent
  association_lost : SctpEvent
  other_sctp_event : SctpEvent

-- `rtc_sctp::PayloadProtocolIdentifier`
pub data Ppi : Type 0 where
  binary binary_empty string string_empty other_ppi : Ppi

pub data ReliabilityType : Type 0 where
  reliable rexmit : ReliabilityType

-- `rtc_sctp::Payload`
pub data Payload : Type 0 where
  raw_encode : List Bytes → Payload
  partial_decode : Payload

-- `rtc_sctp::DatagramEvent`, over the association and its events.
pub data DatagramEvent (A E : Type 0) : Type 0 where
  new_association : A → DatagramEvent A E
  association_event : E → DatagramEvent A E
  other_datagram_event : DatagramEvent A E

-- `rtc_shared::error::Error`, the cases that the certificate check returns.
pub data VerifyError : Type 0 where
  non_certificate unsupported_fingerprint_algorithm no_matching_fingerprint : VerifyError
  crypto_error : Text → VerifyError

pub record Credentials : Type 0 where
  pub ufrag : Text
  pub pwd : Text

-- `rtc_dtls`'s types of the options that the tunnel sets, with the values that it uses.
pub data CipherSuiteId : Type 0 where
  ecdhe_ecdsa_aes_128_gcm_sha256 ecdhe_ecdsa_chacha20_poly1305_sha256 : CipherSuiteId

pub data SrtpProtectionProfile : Type 0 where
  aead_aes_128_gcm aead_aes_256_gcm aes128_cm_hmac_sha1_80 aes128_cm_hmac_sha1_32 :
      SrtpProtectionProfile

pub data ClientAuthType : Type 0 where
  no_client_cert require_any_client_cert : ClientAuthType

pub data ExtendedMasterSecretType : Type 0 where
  request require disable : ExtendedMasterSecretType

-- What the tunnel gives the DTLS `ConfigBuilder`.
pub record DtlsOptions : Type 0 where
  pub certificates : List Bytes
  pub srtp_protection_profiles : List SrtpProtectionProfile
  pub client_auth : ClientAuthType
  pub insecure_skip_verify : Bool
  pub verify_peer_certificate : Option (List Bytes → Result VerifyError (Unit {0}))
  pub cipher_suites : List CipherSuiteId
  pub extended_master_secret : ExtendedMasterSecretType

pub record Platform : Type 1 where
  -- `target_arch = "wasm32"`
  pub wasm32 : Bool
  -- std
  pub to_lowercase : Text → Text
  pub ip_to_string : IpAddr → Text
  pub parse_socket_addr : Text → Option SocketAddr
  pub from_utf8 : Bytes → Option Text
  pub into_bytes : Text → Bytes
  -- rtc-crypto and rtc-dtls certificates: SHA-256, and a fresh self-signed chain
  pub sha256 : Bytes → Result Text Bytes
  pub generate_certificate : Result Text (List Bytes)
  -- rtc-ice
  pub Agent : Type 0
  pub Candidate : Type 0
  pub new_agent : Instant → Bool → Bool → Result Text Agent
  pub new_candidate_host : Text → ℕ → Result Text Candidate
  pub add_local_candidate : Candidate → Agent → Result Text Agent
  pub add_remote_candidate : Candidate → Agent → Result Text Agent
  pub set_remote_credentials : Text → Text → Agent → Result Text Agent
  pub remote_credentials : Agent → Option Credentials
  pub local_credentials : Agent → Credentials
  pub first_local_candidate : Agent → Option Text
  pub start_connectivity_checks : Instant → Bool → Text → Text → Agent → Result Text Agent
  pub ice_poll_event : Agent → Option (IceEvent × Agent)
  pub ice_poll_write : Agent → Option (Bytes × Agent)
  pub has_selected_pair : Agent → Bool
  pub ice_handle_read : Instant → SocketAddr → SocketAddr → Bytes → Agent → Bool × Agent
  pub ice_handle_timeout : Instant → Agent → Agent
  pub ice_poll_timeout : Agent → Option Instant
  pub ice_close : Agent → Agent
  -- rtc-dtls
  pub Dtls : Type 0
  pub DtlsConfig : Type 0
  pub new_dtls : Dtls
  pub build_dtls_config : DtlsOptions → Bool → SocketAddr → Result Text DtlsConfig
  pub set_server_config : DtlsConfig → Dtls → Dtls
  pub dtls_connect : Instant → SocketAddr → DtlsConfig → Dtls → Bool × Dtls
  pub dtls_read : Instant → SocketAddr → Bytes → Dtls → Result Text (List DtlsEvent) × Dtls
  pub dtls_write : Instant → SocketAddr → Bytes → Dtls → Result Text (Unit {0}) × Dtls
  pub dtls_poll_transmit : Dtls → Option (Bytes × Dtls)
  pub dtls_handle_timeout : SocketAddr → Instant → Dtls → Dtls
  pub dtls_poll_timeout : SocketAddr → Dtls → Option Instant
  pub dtls_cipher_suite : SocketAddr → Dtls → Option Text
  -- rtc-sctp
  pub Sctp : Type 0
  pub SctpConfig : Type 0
  pub Association : Type 0
  pub Handle : Type 0
  pub AssociationEvent : Type 0
  pub EndpointEvent : Type 0
  pub Chunks : Type 0
  pub sctp_config : ℕ → ℕ → SctpConfig
  pub new_sctp : Option SctpConfig → Sctp
  pub sctp_connect :
      Instant → SctpConfig → SocketAddr → Sctp → Result Text (Handle × Association) × Sctp
  pub sctp_handle :
      Instant
      → SocketAddr
      → Bytes
      → Sctp
      → Option (Handle × DatagramEvent Association AssociationEvent) × Sctp
  pub sctp_handle_event : Handle → EndpointEvent → Sctp → Sctp
  pub handle_event : AssociationEvent → Association → Association
  pub poll : Association → Option (SctpEvent × Association)
  pub poll_endpoint_event : Association → Option (EndpointEvent × Association)
  pub poll_transmit : Instant → Association → Option (Payload × Association)
  pub handle_timeout : Instant → Association → Association
  pub poll_timeout : Association → Option Instant
  pub has_stream : ℕ → Association → Bool
  pub open_stream : ℕ → Ppi → Association → Result Text (Unit {0}) × Association
  pub set_reliability_params :
      ℕ → Bool → ReliabilityType → ℕ → Association → Result Text (Unit {0}) × Association
  pub read_sctp : ℕ → Association → Result Text (Option Chunks) × Association
  pub ppi : Chunks → Ppi
  pub to_payload : ℕ → Chunks → Result Text Bytes
  pub buffered_amount : ℕ → Association → Result Text ℕ
  pub is_writable : ℕ → Association → Bool
  pub write_chunk_with_ppi : ℕ → Bytes → Ppi → Association → Bool × Association
  -- How many items each queue still holds: the fuel of the loops that empty it.
  pub ice_event_count : Agent → ℕ
  pub ice_write_count : Agent → ℕ
  pub dtls_transmit_count : Dtls → ℕ
  pub sctp_event_count : Association → ℕ
  pub endpoint_event_count : Association → ℕ
  pub transmit_count : Instant → Association → ℕ
  pub chunk_count : ℕ → Association → ℕ

-- What the tunnel's loops rely on: a poll that yields an item takes it off its queue.
pub record Finite (P : Platform) : Type 0 where
  pub ice_events :
      (a b : P.Agent) (e : IceEvent)
      → P.ice_poll_event a ≡ some (e, b)
      → P.ice_event_count b < P.ice_event_count a
  pub ice_writes :
      (a b : P.Agent) (e : Bytes)
      → P.ice_poll_write a ≡ some (e, b)
      → P.ice_write_count b < P.ice_write_count a
  pub dtls_transmits :
      (a b : P.Dtls) (e : Bytes)
      → P.dtls_poll_transmit a ≡ some (e, b)
      → P.dtls_transmit_count b < P.dtls_transmit_count a
  pub sctp_events :
      (a b : P.Association) (e : SctpEvent)
      → P.poll a ≡ some (e, b)
      → P.sctp_event_count b < P.sctp_event_count a
  pub endpoint_events :
      (a b : P.Association) (e : P.EndpointEvent)
      → P.poll_endpoint_event a ≡ some (e, b)
      → P.endpoint_event_count b < P.endpoint_event_count a
  pub transmits :
      (now : Instant) (a b : P.Association) (e : Payload)
      → P.poll_transmit now a ≡ some (e, b)
      → P.transmit_count now b < P.transmit_count now a
