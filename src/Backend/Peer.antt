-- ===== src/Backend/Peer.antt =====
-- What crates/rtc-tunnel-core/src/tunnel.rs calls of the crate `rtc`: its peer connection, as
-- operations on an abstract object. A call that takes `&mut` returns the object after the call.
use rtc_tunnel.Base.{ℕ, Bool, Option, List, Bytes, Text, Result}
use rtc_tunnel.Net.{IpAddr, SocketAddr, Instant}
use rtc_tunnel.Platform.{CipherSuiteId}

-- `RTCPeerConnectionState`, the states that are told apart.
pub data PeerState : Type 0 where
  connected failed disconnected closed other_peer_state : PeerState

-- `RTCPeerConnectionEvent`
pub data PeerEvent : Type 0 where
  channel_open channel_close other_channel_event : PeerEvent
  connection_state : PeerState → PeerEvent
  ice_failed other_peer_event : PeerEvent

-- `RTCMessage`
pub data PeerMessage : Type 0 where
  channel_message : Bytes → PeerMessage
  other_message : PeerMessage

-- The states of the ICE, DTLS and SCTP transports, as far as they are told apart.
pub data TransportState : Type 0 where
  is_connected is_completed other_transport_state : TransportState

pub record Transports : Type 0 where
  pub ice_state : TransportState
  pub dtls_state : TransportState
  pub sctp_state : TransportState

-- The options of `SettingEngineBuilder` that the tunnel sets.
pub record Settings : Type 0 where
  pub disable_verification : Bool
  pub answering_as_server : Bool
  pub cipher_suites : List CipherSuiteId

pub record ChannelInit : Type 0 where
  pub ordered : Bool
  pub max_retransmits : Option ℕ
  pub negotiated : Option ℕ

pub record Peer : Type 1 where
  -- std
  pub wasm32 : Bool
  pub ip_to_string : IpAddr → Text
  pub Connection : Type 0
  pub ChannelId : Type 0
  pub Candidate : Type 0
  pub Description : Type 0
  pub build : Settings → Instant → Result Text Connection
  pub create_data_channel : Text → ChannelInit → Connection → Result Text (ChannelId × Connection)
  pub new_candidate_host : Text → ℕ → Result Text Candidate
  pub add_local_candidate : Candidate → Connection → Result Text Connection
  pub create_offer : Connection → Result Text (Description × Connection)
  pub create_answer : Connection → Result Text (Description × Connection)
  pub answer_description : Text → Result Text Description
  pub offer_description : Text → Result Text Description
  pub set_local_description : Instant → Description → Connection → Result Text Connection
  pub set_remote_description :
      Instant → Description → Connection → Result Text (Unit {0}) × Connection
  pub local_description : Connection → Option Text
  pub handle_read : Instant → SocketAddr → SocketAddr → Bytes → Connection → Bool × Connection
  pub handle_timeout : Instant → Connection → Connection
  pub close_connection : Connection → Connection
  pub poll_peer_event : Connection → Option (PeerEvent × Connection)
  pub poll_write : Connection → Option (Bytes × Connection)
  pub poll_read : Connection → Option (PeerMessage × Connection)
  pub poll_timeout : Connection → Option Instant
  pub has_channel : ChannelId → Connection → Bool
  pub channel_is_open : ChannelId → Connection → Bool
  pub outstanding_bytes : ChannelId → Connection → ℕ
  pub send_on_channel : ChannelId → Instant → Bytes → Connection → Bool × Connection
  pub transports : Connection → Option Transports
  pub dtls_cipher : Instant → Connection → Option Text × Connection
  -- How many items each queue still holds: the fuel of the loops that empty it.
  pub event_count : Connection → ℕ
  pub write_count : Connection → ℕ
  pub read_count : Connection → ℕ
