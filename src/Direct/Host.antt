-- ===== src/Direct/Host.antt =====
-- A host of the tunnel in crates/rtc-tunnel-core/src/direct/mod.rs: any sequence of its calls, and
-- the events that `poll_event` handed over on the way.
pub mod Ledger
pub mod Finished
pub mod Safety
pub mod Reliability
use rtc_tunnel.Base.{ℕ, ◌≡◌, Option, none, some, List, [], ◌∷◌, ◌++◌, Bytes, Text, after}
use rtc_tunnel.Net.{SocketAddr}
use rtc_tunnel.Event.{Event}
use rtc_tunnel.Platform.{Platform}
use rtc_tunnel.Direct.State.{DirectTunnel}
use rtc_tunnel.Direct.Input.{receive, receive_deferred, finish_input_batch, tick}
use rtc_tunnel.Direct.Output.{
  send, close, poll_event, set_remote, set_remote_ice_credentials, set_send_buffer_cap,
}
use rtc_tunnel.Direct.Sdp.{apply_remote_answer_sdp}

pub data HostCall : Type 0 where
  receives : ℕ → Bytes → HostCall
  receives_deferred : ℕ → Bytes → HostCall
  finishes_batch : HostCall
  ticks : ℕ → HostCall
  sends : Bytes → HostCall
  closes_tunnel : HostCall
  polls : HostCall
  sets_remote : SocketAddr → HostCall
  sets_cap : ℕ → HostCall
  sets_credentials : Text → Text → HostCall
  applies_answer : Text → HostCall

pub record Session (P : Platform) : Type 0 where
  pub handed : List Event
  pub tunnel : DirectTunnel P

abbrev pub hand : List Event → Option Event → List Event
hand es none = es
hand es (some e) = es ++ e ∷ []

-- A session that begins with a tunnel just built.
abbrev pub start : {P : Platform} → DirectTunnel P → Session P
start t = record { handed = []; tunnel = t }

module _ {P : Platform} where
  unfoldable pub after_poll : Session P → Session P
  after_poll s = let (e, t) = poll_event s.tunnel in record { handed = hand s.handed e; tunnel = t }

  unfoldable pub step : HostCall → Session P → Session P
  step (receives now_ms d) s = record s { tunnel = receive now_ms d s.tunnel }
  step (receives_deferred now_ms d) s = record s { tunnel = receive_deferred now_ms d s.tunnel }
  step finishes_batch s = record s { tunnel = finish_input_batch s.tunnel }
  step (ticks now_ms) s = record s { tunnel = tick now_ms s.tunnel }
  step (sends m) s = record s { tunnel = (send m s.tunnel).1 }
  step closes_tunnel s = record s { tunnel = close s.tunnel }
  step polls s = after_poll s
  step (sets_remote a) s = record s { tunnel = set_remote a s.tunnel }
  step (sets_cap n) s = record s { tunnel = set_send_buffer_cap n s.tunnel }
  step (sets_credentials ufrag pwd) s = record s {
    tunnel = after (set_remote_ice_credentials ufrag pwd s.tunnel);
  }
  step (applies_answer sdp) s = record s { tunnel = apply_remote_answer_sdp sdp s.tunnel }

  unfoldable pub run : List HostCall → Session P → Session P
  run [] s = s
  run (c ∷ cs) s = run cs (step c s)
