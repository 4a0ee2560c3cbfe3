-- ===== src/Backend/Setup.antt =====
-- crates/rtc-tunnel-core/src/tunnel.rs: building a tunnel, as offerer or as answerer.
use rtc_tunnel.Base.{
  ℕ, ◌+◌, Bool, true, false, some, List, [], ◌∷◌, ◌++◌, Text, text, Result, ok, err, map_err,
  if◌then◌else◌, ltb, differ, is_empty, ◌||◌,
}
use rtc_tunnel.Net.{SocketAddr, Instant, is_ipv4, is_unspecified, from_millis}
use rtc_tunnel.Config.{TunnelConfig}
use rtc_tunnel.Event.{TunnelResult, config, peer_connection, default_send_buffer_cap}
use rtc_tunnel.Str.{trim, show_nat}
use rtc_tunnel.Trace
use rtc_tunnel.Direct.Setup.{and_then, built, preferred_cipher_suites, Surroundings, epoch_of}
use rtc_tunnel.Direct.Sdp.{family_of, join_lines}
use rtc_tunnel.Backend.Peer.{Peer, Settings, ChannelInit}
use rtc_tunnel.Backend.State.{Tunnel, drain}
use rtc_tunnel.Backend.Calls.{apply_remote_answer}

-- `?` on a call of the connection, whose error becomes a `TunnelError`.
abbrev pub or_peer : {A : Type 0} → Result Text A → TunnelResult A
or_peer r = map_err peer_connection r

unfoldable pub channel_init : TunnelConfig → ChannelInit
channel_init c = record {
  ordered = c.ordered;
  max_retransmits = c.max_retransmits;
  negotiated = some c.stream_id;
}

module _ (P : Peer) where
  unfoldable pub settings : Bool → TunnelConfig → Settings
  settings answering c = record {
    disable_verification = c.disable_fingerprint_verification;
    answering_as_server = answering;
    cipher_suites = preferred_cipher_suites P.wasm32;
  }

  unfoldable pub with_candidate : SocketAddr → P.Connection → TunnelResult P.Connection
  with_candidate local_addr pc =
      and_then (or_peer (P.new_candidate_host (P.ip_to_string local_addr.ip) local_addr.port))
        λ candidate. or_peer (P.add_local_candidate candidate pc)

  -- The struct literal of both constructors.
  unfoldable pub initial :
      TunnelConfig → SocketAddr → ℕ → Instant → P.ChannelId → P.Connection → Tunnel P
  initial c local_addr now_ms epoch handle pc = record {
    pc = pc;
    epoch = epoch;
    last_now = epoch + from_millis now_ms;
    local_addr = local_addr;
    remote = c.remote;
    handle = handle;
    handshake_deadline = epoch + from_millis now_ms + from_millis c.handshake_timeout_ms;
    send_buffer_cap = default_send_buffer_cap;
    opened = false;
    finished = false;
    dropped_datagrams = 0;
    events = [];
    trace = Trace.new now_ms;
  }

  -- The connection of the offerer, with its own description set.
  unfoldable pub offering : Instant → SocketAddr → P.Connection → TunnelResult P.Connection
  offering now local_addr pc = and_then (with_candidate local_addr pc) λ pc1.
      and_then (or_peer (P.create_offer pc1))
        λ offer. or_peer (P.set_local_description now offer.0 offer.1)

  -- The connection of the answerer, with both descriptions set.
  unfoldable pub answering : Instant → SocketAddr → Text → P.Connection → TunnelResult P.Connection
  answering now local_addr sdp pc = and_then (or_peer (P.offer_description sdp)) λ offer.
      and_then (or_peer (described (P.set_remote_description now offer pc))) λ pc1.
        and_then (with_candidate local_addr pc1) λ pc2.
          and_then (or_peer (P.create_answer pc2))
            λ answer. or_peer (P.set_local_description now answer.0 answer.1)
    where
      described : Result Text (Unit {0}) × P.Connection → Result Text P.Connection
      described (ok _, pc1) = ok pc1
      described (err e, _) = err e

  -- What both constructors do around `prepare`, which readies the connection.
  unfoldable pub construct :
      Bool
      → (Instant → P.Connection → TunnelResult P.Connection)
      → Surroundings
      → TunnelConfig
      → SocketAddr
      → ℕ
      → TunnelResult (Tunnel P)
  construct answers prepare env c local_addr now_ms =
      let epoch = epoch_of env now_ms in
      let now = epoch + from_millis now_ms in
      and_then (or_peer (P.build (settings answers c) now)) λ pc.
        and_then (or_peer (P.create_data_channel (text "relay") (channel_init c) pc)) λ channel.
          and_then (prepare now channel.1)
            λ pc1. ok (drain (initial c local_addr now_ms epoch channel.0 pc1))

  unfoldable pub offerer : Surroundings → TunnelConfig → SocketAddr → ℕ → TunnelResult (Tunnel P)
  offerer env c local_addr now_ms =
      if ltb 65534 c.stream_id
      then err (config (text "stream id must be 0..=65534"))
      else construct false (λ now pc. offering now local_addr pc) env c local_addr now_ms

  unfoldable pub answerer :
      Surroundings → TunnelConfig → SocketAddr → Text → ℕ → TunnelResult (Tunnel P)
  answerer env c local_addr sdp now_ms =
      if ltb 65534 c.stream_id
      then err (config (text "stream id must be 0..=65534"))
      else construct true (λ now pc. answering now local_addr sdp pc) env c local_addr now_ms

  -- `remote_answer_sdp`
  unfoldable pub remote_answer_lines : TunnelConfig → List Text
  remote_answer_lines c =
      let (family, unspecified) = family_of c.remote in
      text "v=0"
      ∷ (text "o=- 0 0 IN " ++ (family ++ (32 ∷ unspecified)))
      ∷ text "s=-"
      ∷ text "t=0 0"
      ∷ text "a=group:BUNDLE 0"
      ∷ text "a=msid-semantic: WMS"
      ∷ text "m=application 9 UDP/DTLS/SCTP webrtc-datachannel"
      ∷ (text "c=IN " ++ (family ++ (32 ∷ unspecified)))
      ∷ text "a=mid:0"
      ∷ (text "a=sctp-port:" ++ show_nat c.sctp_port)
      ∷ text "a=max-message-size:262144"
      ∷ (text "a=ice-ufrag:" ++ c.ice_ufrag)
      ∷ (text "a=ice-pwd:" ++ c.ice_pwd)
      ∷ text "a=setup:passive"
      ∷ (text "a=fingerprint:" ++ (c.fingerprint_algorithm ++ (32 ∷ c.remote_fingerprint)))
      ∷ (text "a=candidate:1 1 udp 2130706431 "
          ++ (P.ip_to_string c.remote.ip ++ (32 ∷ (show_nat c.remote.port ++ text " typ host"))))
      ∷ text "a=end-of-candidates"
      ∷ []

  unfoldable pub remote_answer_sdp : TunnelConfig → Text
  remote_answer_sdp c = join_lines (remote_answer_lines c)

  unfoldable pub answered : TunnelConfig → Tunnel P → TunnelResult (Tunnel P)
  answered c t =
      and_then (or_peer (P.answer_description (remote_answer_sdp c)))
        λ answer. built (apply_remote_answer answer t)

  unfoldable pub new : Surroundings → TunnelConfig → SocketAddr → ℕ → TunnelResult (Tunnel P)
  new env c local_addr now_ms =
      if is_unspecified c.remote.ip
      then err (config (text "remote address must be concrete"))
      else if differ (is_ipv4 c.remote) (is_ipv4 local_addr)
      then err (config (text "local and remote addresses must share an address family"))
      else if is_empty (trim c.remote_fingerprint)
      then err (config (text "remote fingerprint is required"))
      else if is_empty c.ice_ufrag || is_empty c.ice_pwd
      then err (config (text "remote ICE credentials are required"))
      else if ltb 65534 c.stream_id
      then err (config (text "stream id must be 0..=65534"))
      else and_then (offerer env c local_addr now_ms) (answered c)
