-- ===== src/Direct/State.antt =====
-- crates/rtc-tunnel-core/src/direct/mod.rs: `DirectTunnel`, its classifiers and small methods.
pub mod Clock
use rtc_tunnel.Base.{
  ℕ, ◌+◌, Bool, true, false, ◌&&◌, Option, List, [], ◌∷◌, ◌++◌, Bytes, Text, text, Outcome, Result,
  ok, err, done, fail, leb, if◌then◌else◌, String,
}
use rtc_tunnel.Net.{SocketAddr, Instant, from_millis, millis_since}
use rtc_tunnel.Event.{CloseReason, Event, closed, TunnelError, config}
use rtc_tunnel.Trace.{HandshakeTrace, observe_open}
use rtc_tunnel.Platform.{Platform}

pub data Role : Type 0 where
  offerer answerer : Role

abbrev pub is_offerer : Role → Bool
is_offerer offerer = true
is_offerer answerer = false

abbrev dtls_first_byte_min : ℕ
dtls_first_byte_min = 20

abbrev dtls_first_byte_max : ℕ
dtls_first_byte_max = 63

unfoldable pub is_stun : Bytes → Bool
is_stun [] = false
is_stun (b ∷ _) = leb b 3

unfoldable pub is_dtls : Bytes → Bool
is_dtls [] = false
is_dtls (b ∷ _) = leb dtls_first_byte_min b && leb b dtls_first_byte_max

-- `TunnelError::Config(format!("{prefix}{e}"))`
unfoldable pub config_error : String → Text → TunnelError
config_error prefix e = config (text prefix ++ e)

pub record DirectTunnel (P : Platform) : Type 0 where
  pub role : Role
  pub ice : P.Agent
  pub dtls : P.Dtls
  pub dtls_config : Option P.DtlsConfig
  pub local_fingerprint : Text
  pub sctp : Option P.Sctp
  pub sctp_config : Option P.SctpConfig
  pub association : Option P.Association
  pub association_handle : Option P.Handle
  pub local_addr : SocketAddr
  pub remote_addr : SocketAddr
  pub sctp_port : ℕ
  pub stream_id : ℕ
  pub ordered : Bool
  pub max_retransmits : ℕ
  pub remote_fingerprint : Text
  pub fingerprint_algorithm : Text
  pub disable_fingerprint_verification : Bool
  pub dtls_started : Bool
  pub dtls_connected : Bool
  pub sctp_connected : Bool
  pub channel_dialed : Bool
  pub opened : Bool
  pub finished : Bool
  pub dropped_datagrams : ℕ
  pub epoch : Instant
  pub last_now : Instant
  pub handshake_deadline : Instant
  pub send_buffer_cap : ℕ
  pub events : List Event
  pub trace : HandshakeTrace

-- What a method that returns `Result<A>` leaves.
abbrev pub Call : Platform → Type 0 → Type 0
Call P A = Outcome TunnelError (DirectTunnel P) A

module _ {P : Platform} where
  -- `self.events.push_back(e)`
  abbrev pub push_back : Event → DirectTunnel P → DirectTunnel P
  push_back e t = record t { events = t.events ++ e ∷ [] }

  unfoldable pub ms : DirectTunnel P → Instant → ℕ
  ms t instant = millis_since t.epoch instant

  -- `self.epoch + Duration::from_millis(now_ms)`
  unfoldable pub instant : DirectTunnel P → ℕ → Instant
  instant t now_ms = t.epoch + from_millis now_ms

  unfoldable pub finish : CloseReason → DirectTunnel P → DirectTunnel P
  finish reason t =
      if t.finished then t else push_back (closed reason) (record t { finished = true })

  unfoldable pub maybe_open : DirectTunnel P → DirectTunnel P
  maybe_open t =
      if t.opened
      then t
      else if t.sctp_connected && t.channel_dialed
      then push_back Event.opened
          (record t { opened = true; trace = observe_open (ms t t.last_now) t.trace })
      else t

  -- A call on the ICE agent that may fail: `.map_err(|e| …)?`.
  unfoldable pub with_ice : String → Result Text P.Agent → DirectTunnel P → Call P (Unit {0})
  with_ice prefix (ok ice) t = done tt (record t { ice = ice })
  with_ice prefix (err e) t = fail (config_error prefix e) t
