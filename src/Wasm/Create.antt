-- ===== src/Wasm/Create.antt =====
-- crates/rtc-tunnel-wasm/src/lib.rs: `rtc_tunnel_create` and the message of its last failure.
pub mod Failure
use rtc_tunnel.Base.{
  ℕ, ◌%◌, ◌^◌, Bool, not, Option, none, some, [], Bytes, Text, text, ok, err, length, ltb, ◌==◌,
  if◌then◌else◌, or_default,
}
use rtc_tunnel.Net.{SocketAddr}
use rtc_tunnel.Config
use rtc_tunnel.Config.{TunnelConfig}
use rtc_tunnel.Event.{TunnelResult, display}
use rtc_tunnel.Platform.{Platform}
use rtc_tunnel.Direct.State.{DirectTunnel}
use rtc_tunnel.Direct.Sdp.{offer_sdp}
use rtc_tunnel.Direct.Setup
use rtc_tunnel.Direct.Setup.{Surroundings}
use rtc_tunnel.Wasm.Abi.{Float, reading, as_u64, is_positive, str_arg, copied, event_none}
use rtc_tunnel.Wasm.Handle.{TunnelHandle}

-- The arguments of `rtc_tunnel_create`; `max_retransmits` is the bit pattern of its `i32`.
pub record CreateArgs : Type 0 where
  pub remote : Option Bytes
  pub ufrag : Option Bytes
  pub pwd : Option Bytes
  pub fingerprint : Option Bytes
  pub fingerprint_algorithm : Option Bytes
  pub local : Option Bytes
  pub sctp_port : ℕ
  pub stream_id : ℕ
  pub ordered : ℕ
  pub max_retransmits : ℕ
  pub handshake_timeout_ms : Float
  pub disable_fingerprint_verification : ℕ
  pub now_ms : Float

-- `(max_retransmits >= 0).then_some(max_retransmits as u16)`
unfoldable retransmits_arg : ℕ → Option ℕ
retransmits_arg bits = if ltb bits (2 ^ 31) then some (bits % 2 ^ 16) else none

-- `str_arg(…).and_then(|s| s.parse())`
unfoldable addr_arg : Platform → Option Bytes → Option SocketAddr
addr_arg P bytes = elim (str_arg P bytes) [ none ↦ none | some s ↦ P.parse_socket_addr s ]

-- A step of the argument checks: what is not there is a failure with its message.
abbrev pub need {ℓ κ} : {A : Type ℓ} {B : Type κ} → Option A → B → (A → B) → B
need none absent f = absent
need (some a) absent f = f a

module _ (P : Platform) where
  -- What the call leaves: the handle, null on failure, and `LAST_ERROR`.
  abbrev Created : Type 0
  Created = Option (TunnelHandle P) × Bytes

  -- `set_last_error(message); return null`
  pub refused : Text → Created
  refused message = (none, P.into_bytes message)

  unfoldable config_of : CreateArgs → SocketAddr → Text → Text → Text → Text → TunnelConfig
  config_of a remote ufrag pwd fingerprint fingerprint_algorithm =
      let c = Config.new remote ufrag pwd fingerprint in
      record c {
        sctp_port = a.sctp_port;
        stream_id = a.stream_id;
        fingerprint_algorithm = fingerprint_algorithm;
        ordered = not (a.ordered == 0);
        max_retransmits = retransmits_arg a.max_retransmits;
        handshake_timeout_ms =
            if is_positive a.handshake_timeout_ms
            then as_u64 a.handshake_timeout_ms
            else c.handshake_timeout_ms;
        disable_fingerprint_verification = not (a.disable_fingerprint_verification == 0);
      }

  unfoldable handle_of : DirectTunnel P → TunnelHandle P
  handle_of tunnel = record {
    tunnel = tunnel;
    offer = P.into_bytes (or_default (offer_sdp tunnel) []);
    event_kind = event_none;
    event_payload = [];
    event_reason = 0;
    drained = [];
    descriptors = [];
    cipher = none;
  }

  finished_create : TunnelResult (DirectTunnel P) → Created
  finished_create (ok tunnel) = (some (handle_of tunnel), [])
  finished_create (err e) = refused (display e)

  pub rtc_tunnel_create : Surroundings → CreateArgs → Created
  rtc_tunnel_create env a =
      need (addr_arg P a.remote) (refused (text "remote must be an ip:port string")) λ remote.
        need (addr_arg P a.local) (refused (text "local must be an ip:port string")) λ local.
          need (str_arg P a.ufrag) (refused (text "ice ufrag must be valid utf-8")) λ ufrag.
            need (str_arg P a.pwd) (refused (text "ice pwd must be valid utf-8")) λ pwd.
              need (str_arg P a.fingerprint) (refused (text "fingerprint must be valid utf-8"))
                λ fingerprint.
                  need (str_arg P a.fingerprint_algorithm)
                    (refused (text "fingerprint algorithm must be valid utf-8"))
                    λ algorithm.
                      if ltb 65535 a.sctp_port
                      then refused (text "sctp port must fit in u16")
                      else if ltb 65534 a.stream_id
                      then refused (text "stream id must be 0..=65534")
                      else finished_create (
                          Setup.new P env (config_of a remote ufrag pwd fingerprint algorithm) local
                            (reading a.now_ms))

-- `rtc_tunnel_last_error_len` and `rtc_tunnel_last_error_copy`, over the message that is kept.
unfoldable rtc_tunnel_last_error_len : Bytes → ℕ
rtc_tunnel_last_error_len message = length message

unfoldable rtc_tunnel_last_error_copy : Bool → ℕ → Bytes → Bytes
rtc_tunnel_last_error_copy is_null size message = copied is_null size message
