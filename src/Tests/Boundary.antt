-- ===== src/Tests/Boundary.antt =====
-- crates/rtc-tunnel-wasm/src/lib.rs: a handle with two events queued.
use rtc_tunnel.Base.{is_empty, ℕ, ◌≡◌, Text, true, false, refl, none, some, List, [], ◌∷◌}
use rtc_tunnel.Event.{Event, send_datagram, opened}
use rtc_tunnel.Wasm.Handle.{TunnelHandle}
use rtc_tunnel.Wasm.Events.{describe, pull}
use rtc_tunnel.Wasm.Events.Agree.{poll_words, describe-pull}
use rtc_tunnel.Tests.Toy.{toy}
use rtc_tunnel.Tests.Core.{tunnel, around}
use rtc_tunnel.Direct.Host.{start, run}
use rtc_tunnel.Wasm.Abi.{positive, nan}
use rtc_tunnel.Wasm.Create.{CreateArgs, rtc_tunnel_create}
use rtc_tunnel.Wasm.Create.Failure.{Tells, create-Tells}
use rtc_tunnel.Wasm.Refine.{
  AbiCall, calls_input, calls_drain_events, calls_cipher_len, all_on_tunnel, call_all, Mirrors,
  call_all-Mirrors,
}

abbrev pub queued : List Event
queued = send_datagram (1 ∷ 2 ∷ []) ∷ opened ∷ []

abbrev pub handle : TunnelHandle toy
handle = record {
  tunnel = record tunnel { events = queued };
  offer = [];
  event_kind = 0;
  event_payload = [];
  event_reason = 0;
  drained = [];
  descriptors = [];
  cipher = none;
}

abbrev pub place : ℕ → ℕ
place i = 4096

describe-pull_example : describe place 0 (pull 8 handle.tunnel).0 ≡ poll_words place 8 0 handle
describe-pull_example = describe-pull place 8 0 handle queued refl

abbrev pub abi_calls : List AbiCall
abi_calls =
    calls_input (positive 110 true) (some (1 ∷ [])) ∷ calls_drain_events 4 ∷ calls_cipher_len ∷ []

call_all-Mirrors_example :
    Mirrors
      (run (all_on_tunnel abi_calls) (start handle.tunnel))
      (call_all place abi_calls (some handle))
call_all-Mirrors_example = call_all-Mirrors place abi_calls handle (start handle.tunnel) refl

toy-nonempty : (c : ℕ) (s : Text) → is_empty (toy.into_bytes (c ∷ s)) ≡ false
toy-nonempty c s = refl

abbrev pub no_args : CreateArgs
no_args = record {
  remote = none;
  ufrag = none;
  pwd = none;
  fingerprint = none;
  fingerprint_algorithm = none;
  local = none;
  sctp_port = 5000;
  stream_id = 0;
  ordered = 0;
  max_retransmits = 0;
  handshake_timeout_ms = nan;
  disable_fingerprint_verification = 0;
  now_ms = nan;
}

create-Tells_example : Tells (rtc_tunnel_create toy around no_args)
create-Tells_example = create-Tells toy toy-nonempty around no_args

abbrev pub new_handle : TunnelHandle toy
new_handle = record handle { tunnel = tunnel }
