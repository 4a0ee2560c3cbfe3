-- ===== src/Tests/Umbrella.antt =====
-- crates/rtc-tunnel-core/src/tunnel.rs: a tunnel over a peer connection, constructed and fed.
use rtc_tunnel.Base.{
  ◌&◌, if◌then◌else◌, ◌≡◌, ◌⊎◌, inl, refl, true, false, none, List, [], ◌∷◌, text, ok, flag, arith,
  while_some, while_ok,
}
use rtc_tunnel.Event.{send_datagram, accepted}
use rtc_tunnel.Event.Count.{opens, closes}
use rtc_tunnel.Trace
use rtc_tunnel.Trace.{observe}
use rtc_tunnel.Direct.Setup.{epoch_of}
use rtc_tunnel.Backend.State.{
  Tunnel, drain, drain_writes, drain_events, drain_reads, write_step, event_step, read_step,
  maybe_open, announce_open, refresh_opened, sample_handshake, ms_since_epoch, instant,
}
use rtc_tunnel.Backend.Calls.{
  receive, receive_deferred, finish_input_batch, tick, send, send_open, sent,
}
use rtc_tunnel.Backend.Calls.Sending.{Sendable, looked, backend_send-accepted}
use rtc_tunnel.Backend.Calls.Deferred.{backend_deferred-eq-receive, backend_tick_decides}
use rtc_tunnel.Backend.Setup.{offerer, construct, offering, with_candidate, initial}
use rtc_tunnel.Backend.Host.{
  Call, feeds, submits, shuts, takes_event, start, history, run, sets_cap, names_cipher,
}
use rtc_tunnel.Backend.Host.Once.{backend_announces_once}
use rtc_tunnel.Backend.Host.Silent.{backend_run-finished}
use rtc_tunnel.Tests.Toy.{toy_addr}
use rtc_tunnel.Tests.Core.{settings, around}
use rtc_tunnel.Tests.ToyPeer.{toy_peer}

-- What the offerer's constructor returns.
abbrev begun : Tunnel toy_peer
begun = record {
  pc = record { news = []; writes = []; reads = []; is_open = false };
  epoch = 8_900_000_000;
  last_now = 9_000_000_000;
  local_addr = toy_addr;
  remote = toy_addr;
  handle = tt;
  handshake_deadline = 39_000_000_000;
  send_buffer_cap = 1_048_576;
  opened = false;
  finished = false;
  dropped_datagrams = 0;
  events = send_datagram (1 ∷ []) ∷ [];
  trace = record {
    start_ms = 100;
    ice_ms = none;
    dtls_ms = none;
    sctp_ms = none;
    opened_ms = none;
  };
}

begun-built : offerer toy_peer around settings toy_addr 100 ≡ ok begun
unfolding offerer construct offering with_candidate initial epoch_of Trace.new drain drain_writes
    drain_events drain_reads write_step event_step read_step maybe_open announce_open refresh_opened
    sample_handshake ms_since_epoch observe while_some while_ok Trace.is_complete
begun-built = refl

abbrev fed : List (Call toy_peer)
fed = feeds 110 (7 ∷ []) ∷ takes_event ∷ submits (8 ∷ []) ∷ sets_cap 5 ∷ names_cipher ∷ shuts ∷ []

backend_announces_once_example :
    (closes (history (run fed (start begun))) ≡ flag (run fed (start begun)).tunnel.finished)
    × (opens (history (run fed (start begun))) ≡ flag (run fed (start begun)).tunnel.opened)
backend_announces_once_example =
    backend_announces_once toy_peer around settings toy_addr 100 (text "") begun (inl begun-built)
      fed

backend_deferred-eq-receive_example :
    (if begun.opened
      then finish_input_batch (receive_deferred 110 (7 ∷ []) begun)
      else receive_deferred 110 (7 ∷ []) begun)
    ≡ receive 110 (7 ∷ []) begun
backend_deferred-eq-receive_example = backend_deferred-eq-receive 110 (7 ∷ []) begun

backend_tick_decides_example :
    ((tick 30_100 begun).opened ≡ true) ⊎ ((tick 30_100 begun).finished ≡ true)
backend_tick_decides_example = backend_tick_decides 30_100 begun (unfold instant in omega arith)

-- The channel has opened, and the tunnel has not been told yet.
abbrev unnoticed : Tunnel toy_peer
unnoticed = record begun { pc = record begun.pc { is_open = true } }

unnoticed-sends : (send (8 ∷ []) unnoticed).0 ≡ accepted
unfolding send send_open sent maybe_open announce_open refresh_opened
unnoticed-sends = refl

backend_send-accepted_example : (unnoticed.finished ≡ false) × Sendable (8 ∷ []) (looked unnoticed)
backend_send-accepted_example = backend_send-accepted (8 ∷ []) unnoticed unnoticed-sends

abbrev over : Tunnel toy_peer
over = record begun { finished = true }

backend_run-finished_example :
    (history (run fed (start over)) ≡ history (start over))
    × ((run fed (start over)).tunnel.finished ≡ true)
backend_run-finished_example =
    backend_run-finished fed (start over) (tt & tt & tt & tt & tt & tt & tt) refl
