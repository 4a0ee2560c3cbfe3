-- ===== src/Direct/Setup.antt =====
-- crates/rtc-tunnel-core/src/direct/mod.rs: building a tunnel, as offerer or as answerer.
pub mod Checks
pub mod Trust
pub mod Fresh
pub mod Configured
use rtc_tunnel.Base.{
  ℕ, ◌+◌, String, Bool, true, false, not, ◌&&◌, ◌||◌, Option, none, some, List, [], ◌∷◌, Text, text,
  Result, ok, err, Outcome, done, fail, outcome, ◌>>=◌, ◌>>◌, if◌then◌else◌, ltb, or_default,
  is_empty, differ,
}
use rtc_tunnel.Net.{SocketAddr, Instant, is_ipv4, is_unspecified, from_millis, checked_sub_duration}
use rtc_tunnel.Config.{TunnelConfig}
use rtc_tunnel.Event.{TunnelError, TunnelResult, config, default_send_buffer_cap}
use rtc_tunnel.Trace
use rtc_tunnel.Platform.{
  Platform, VerifyError, DtlsOptions, CipherSuiteId, ecdhe_ecdsa_aes_128_gcm_sha256,
  ecdhe_ecdsa_chacha20_poly1305_sha256, aead_aes_128_gcm, aead_aes_256_gcm, aes128_cm_hmac_sha1_80,
  aes128_cm_hmac_sha1_32, require_any_client_cert, require,
}
use rtc_tunnel.Str.{trim}
use rtc_tunnel.Direct.State.{
  DirectTunnel, Call, Role, offerer, answerer, is_offerer, config_error, with_ice,
}
use rtc_tunnel.Direct.Sdp.{ParsedOffer, parse}
use rtc_tunnel.Direct.Verify.{verify_peer, fingerprint_of}

-- `?` on a constructor's result.
abbrev pub and_then : {A B : Type 0} → TunnelResult A → (A → TunnelResult B) → TunnelResult B
and_then (ok a) f = f a
and_then (err e) f = err e

-- A call on a tunnel that is being built: what fails is dropped.
abbrev pub built : {S A : Type 0} → Outcome TunnelError S A → TunnelResult S
built (done a s) = ok s
built (fail e s) = err e

-- `PREFERRED_CIPHER_SUITES`, for wasm32 and for other targets.
unfoldable pub preferred_cipher_suites : Bool → List CipherSuiteId
preferred_cipher_suites true =
    ecdhe_ecdsa_chacha20_poly1305_sha256 ∷ ecdhe_ecdsa_aes_128_gcm_sha256 ∷ []
preferred_cipher_suites false =
    ecdhe_ecdsa_aes_128_gcm_sha256 ∷ ecdhe_ecdsa_chacha20_poly1305_sha256 ∷ []

module _ {P : Platform} where
  unfoldable pub with_candidate :
      String
      → (P.Candidate → P.Agent → Result Text P.Agent)
      → Result Text P.Candidate
      → DirectTunnel P
      → Call P (Unit {0})
  with_candidate prefix add (err e) t = fail (config_error "candidate: " e) t
  with_candidate prefix add (ok candidate) t = with_ice prefix (add candidate t.ice) t

  -- `add_candidates`: the local host candidate, then the remote one.
  unfoldable pub add_candidate :
      String
      → (P.Candidate → P.Agent → Result Text P.Agent)
      → SocketAddr
      → DirectTunnel P
      → Call P (Unit {0})
  add_candidate prefix add addr t =
      with_candidate prefix add (P.new_candidate_host (P.ip_to_string addr.ip) addr.port) t

  unfoldable pub add_candidates : TunnelConfig → DirectTunnel P → Call P (Unit {0})
  add_candidates c t =
      add_candidate "local candidate: " P.add_local_candidate t.local_addr t
      >> add_candidate "remote candidate: " P.add_remote_candidate c.remote

  -- The check that DTLS runs on the peer's certificates, fixed when the tunnel is built.
  unfoldable pub verifier : DirectTunnel P → Option (List (List ℕ) → Result VerifyError (Unit {0}))
  verifier t =
      if t.disable_fingerprint_verification
      then none
      else some (verify_peer P (P.to_lowercase t.remote_fingerprint) t.fingerprint_algorithm)

  unfoldable pub dtls_options : List (List ℕ) → DirectTunnel P → DtlsOptions
  dtls_options certificate t = record {
    certificates = certificate;
    srtp_protection_profiles =
        aead_aes_128_gcm ∷ aead_aes_256_gcm ∷ aes128_cm_hmac_sha1_80 ∷ aes128_cm_hmac_sha1_32 ∷ [];
    client_auth = require_any_client_cert;
    insecure_skip_verify = true;
    verify_peer_certificate = verifier t;
    cipher_suites = preferred_cipher_suites P.wasm32;
    extended_master_secret = require;
  }

  unfoldable pub configured : Result Text P.DtlsConfig → DirectTunnel P → Call P (Unit {0})
  configured (err e) t = fail (config_error "dtls config: " e) t
  configured (ok c) t = done tt (record t {
    dtls_config = some c;
    dtls = if is_offerer t.role then t.dtls else P.set_server_config c t.dtls;
  })

  unfoldable pub fingerprinted :
      TunnelResult Text → List (List ℕ) → DirectTunnel P → Call P (Unit {0})
  fingerprinted (err e) certificate t = fail e t
  fingerprinted (ok fingerprint) certificate t =
      let t' = record t { local_fingerprint = fingerprint } in
      configured
        (P.build_dtls_config (dtls_options certificate t') (is_offerer t'.role) t'.remote_addr) t'

  unfoldable pub prepared : Result Text (List (List ℕ)) → DirectTunnel P → Call P (Unit {0})
  prepared (err e) t = fail (config_error "certificate: " e) t
  prepared (ok certificate) t = fingerprinted (fingerprint_of P certificate) certificate t

  unfoldable pub prepare_dtls : DirectTunnel P → Call P (Unit {0})
  prepare_dtls t = prepared P.generate_certificate t

  unfoldable pub remote_credentials_ufrag : DirectTunnel P → Text
  remote_credentials_ufrag t = elim (P.remote_credentials t.ice) [ none ↦ [] | some c ↦ c.ufrag ]

  unfoldable pub remote_credentials_pwd : DirectTunnel P → Text
  remote_credentials_pwd t = elim (P.remote_credentials t.ice) [ none ↦ [] | some c ↦ c.pwd ]

  unfoldable pub start_checks : DirectTunnel P → Call P (Unit {0})
  start_checks t =
      with_ice "start checks: "
        (P.start_connectivity_checks t.last_now (is_offerer t.role) (remote_credentials_ufrag t)
          (remote_credentials_pwd t) t.ice)
        t

  -- The struct literal of `build`, over the epoch and the agent.
  unfoldable pub initial : Role → TunnelConfig → SocketAddr → ℕ → Instant → P.Agent → DirectTunnel P
  initial role c local_addr now_ms epoch ice = record {
    role = role;
    ice = ice;
    dtls = P.new_dtls;
    dtls_config = none;
    local_fingerprint = [];
    sctp = none;
    sctp_config = none;
    association = none;
    association_handle = none;
    local_addr = local_addr;
    remote_addr = c.remote;
    sctp_port = c.sctp_port;
    stream_id = c.stream_id;
    ordered = c.ordered;
    max_retransmits = or_default c.max_retransmits 0;
    remote_fingerprint = c.remote_fingerprint;
    fingerprint_algorithm = c.fingerprint_algorithm;
    disable_fingerprint_verification = c.disable_fingerprint_verification;
    dtls_started = false;
    dtls_connected = false;
    sctp_connected = false;
    channel_dialed = false;
    opened = false;
    finished = false;
    dropped_datagrams = 0;
    epoch = epoch;
    last_now = epoch + from_millis now_ms;
    handshake_deadline = epoch + from_millis now_ms + from_millis c.handshake_timeout_ms;
    send_buffer_cap = default_send_buffer_cap;
    events = [];
    trace = Trace.new now_ms;
  }

  unfoldable pub set_credentials : TunnelConfig → DirectTunnel P → Call P (Unit {0})
  set_credentials c t =
      with_ice "remote credentials: " (P.set_remote_credentials c.ice_ufrag c.ice_pwd t.ice) t

  unfoldable pub equip : TunnelConfig → DirectTunnel P → Call P (Unit {0})
  equip c t = prepare_dtls t >> add_candidates c >> set_credentials c

-- The configuration with what the offer says of the peer.
unfoldable pub with_offer : ParsedOffer → TunnelConfig → TunnelConfig
with_offer o c = record c {
  ice_ufrag = o.ufrag;
  ice_pwd = o.pwd;
  remote = o.remote;
  remote_fingerprint = if is_empty o.fingerprint then c.remote_fingerprint else o.fingerprint;
}

-- What the code reads of its surroundings while it builds a tunnel: the clock, twice at most, and
-- the crypto provider, whose absence is an error.
pub record Surroundings : Type 0 where
  pub clock : Instant
  pub clock_again : Instant
  pub provider : Result Text (Unit {0})

-- `Instant::now().checked_sub(…).unwrap_or_else(Instant::now)`
unfoldable pub epoch_of : Surroundings → ℕ → Instant
epoch_of env now_ms =
    or_default (checked_sub_duration env.clock (from_millis now_ms)) env.clock_again

module _ (P : Platform) (env : Surroundings) where
  unfoldable pub with_agent :
      Role → TunnelConfig → SocketAddr → ℕ → Result Text P.Agent → TunnelResult (DirectTunnel P)
  with_agent role c local_addr now_ms (err e) = err (config_error "ice agent: " e)
  with_agent role c local_addr now_ms (ok ice) =
      built (equip c (initial role c local_addr now_ms (epoch_of env now_ms) ice))

  unfoldable pub with_provider :
      Role → TunnelConfig → SocketAddr → ℕ → Result Text (Unit {0}) → TunnelResult (DirectTunnel P)
  with_provider role c local_addr now_ms (err e) = err (config_error "crypto provider: " e)
  with_provider role c local_addr now_ms (ok _) = with_agent role c local_addr now_ms (
      P.new_agent (epoch_of env now_ms + from_millis now_ms) (is_ipv4 local_addr) (is_offerer role))

  unfoldable pub build : Role → TunnelConfig → SocketAddr → ℕ → TunnelResult (DirectTunnel P)
  build role c local_addr now_ms = with_provider role c local_addr now_ms env.provider

  unfoldable pub begin : Role → TunnelConfig → SocketAddr → ℕ → TunnelResult (DirectTunnel P)
  begin role c local_addr now_ms =
      and_then (build role c local_addr now_ms) λ t. built (start_checks t)

  unfoldable pub offer : TunnelConfig → SocketAddr → ℕ → TunnelResult (DirectTunnel P)
  offer c local_addr now_ms = begin offerer c local_addr now_ms

  -- `DirectTunnel::new`
  unfoldable pub new : TunnelConfig → SocketAddr → ℕ → TunnelResult (DirectTunnel P)
  new c local_addr now_ms =
      if is_unspecified c.remote.ip
      then err (config (text "remote address must be concrete"))
      else if differ (is_ipv4 c.remote) (is_ipv4 local_addr)
      then err (config (text "local and remote addresses must share an address family"))
      else if is_empty (trim c.remote_fingerprint)
      then err (config (text "remote fingerprint is required"))
      else if is_empty c.ice_ufrag || is_empty c.ice_pwd
      then err (config (text "remote ICE credentials are required"))
      else if ltb 65534 c.stream_id
      then err (config (text "stream id must be 0..=65534"))
      else offer c local_addr now_ms

  unfoldable pub answer_to :
      ParsedOffer → TunnelConfig → SocketAddr → ℕ → TunnelResult (DirectTunnel P)
  answer_to o c local_addr now_ms =
      if differ (is_ipv4 o.remote) (is_ipv4 local_addr)
      then err (config (text "local and remote addresses must share an address family"))
      else begin answerer (with_offer o c) local_addr now_ms

  unfoldable pub answer : TunnelConfig → SocketAddr → Text → ℕ → TunnelResult (DirectTunnel P)
  unfolding answer_to
  answer c local_addr remote_offer_sdp now_ms =
      if ltb 65534 c.stream_id
      then err (config (text "stream id must be 0..=65534"))
      else and_then (parse P remote_offer_sdp) λ o. answer_to o c local_addr now_ms
