-- ===== src/Tests/Core.antt =====
-- crates/rtc-tunnel-core/src/direct/mod.rs: a tunnel that connects, sends, and closes.
use rtc_tunnel.Base.{
  if◌then◌else◌, ◌++◌, ℕ, ◌≡◌, ◌≢◌, ◌≤◌, ◌⊎◌, refl, is_some, arith, done, true, false, none, some,
  List, [], ◌∷◌, text, ok, flag, while_some, while_ok, for_each, suc, ◌||◌,
}
use rtc_tunnel.Config.{TunnelConfig}
use rtc_tunnel.Event.{Event, message, accepted, max_message_size}
use rtc_tunnel.Direct.State.{
  DirectTunnel, offerer, with_ice, is_stun, is_dtls, instant, ms, maybe_open, finish, push_back,
}
use rtc_tunnel.Direct.Setup.{
  Surroundings, begin, initial, epoch_of, build, with_provider, with_agent, equip, prepare_dtls,
  prepared, fingerprinted, configured, add_candidates, add_candidate, with_candidate,
  set_credentials, start_checks,
}
use rtc_tunnel.Trace
use rtc_tunnel.Str.{hex_join}
use rtc_tunnel.Direct.Verify.{fingerprint_of, hex_of}
use rtc_tunnel.Direct.Host.{HostCall, receives, ticks, Session, start, step, run, after_poll}
use rtc_tunnel.Direct.Host.Safety
use rtc_tunnel.Direct.Change.{Reported}
use rtc_tunnel.Direct.Host.Ledger.{history, run-history}
use rtc_tunnel.Event.Count.{opens, closes}
use rtc_tunnel.Trace.{observe_ice, observe_dtls, observe_sctp, observe_open, observe}
use rtc_tunnel.Direct.Pump.Readings.{news}
use rtc_tunnel.Direct.Pump.{
  feed_dtls, dtls_events, dtls_event, feed_sctp, datagram_event, start_sctp, connected_to,
  activate_dtls, connect_dtls, drain_dtls_transmits, drain_ice_events, drain_ice_writes,
  ice_event_step, ice_event, ice_write_step, dtls_transmit_step, read_stream, read_step,
  read_chunks, deliver, deliver_payload,
}
use rtc_tunnel.Direct.Sctp.{
  pump, start_dtls, drain_secured, drain_sctp, drain_channel, drain_sctp_transmits,
  poll_association, sctp_events, act_on_seen, mark_connected, mark_lost, open_stream, stream_opened,
  params_set, reliability, sctp_event_step, see, endpoint_event_step, forward, transmit_step,
  write_payload, write_raw, raw_written,
}
use rtc_tunnel.Direct.Input.{
  receive, receive_deferred, finish_input_batch, tick, take_in, ingest, classify, ingest_stun,
  ingest_dtls, fed_dtls, count_drop, time_out, time_out_association, expire,
}
use rtc_tunnel.Direct.Output.{
  next_deadline, send, close, poll_event, pop_front, send_on, over_cap, buffered, framed, written,
  flush,
}
use rtc_tunnel.Direct.Input.Batch.{deferred-eq-receive}
use rtc_tunnel.Direct.Output.Sending.{
  Sendable, send-accepted, send-refused, framed-read_chunks, next_deadline-le,
}
use rtc_tunnel.Direct.Host.Finished.{run-finished}
use rtc_tunnel.Tests.Toy.{ToyAssociation, toy, toy_addr, toy_agent}

abbrev pub settings : TunnelConfig
settings = record {
  remote = toy_addr;
  ice_ufrag = text "them";
  ice_pwd = text "pwd";
  remote_fingerprint = text "ab:0c";
  fingerprint_algorithm = text "sha-256";
  sctp_port = 5000;
  stream_id = 0;
  ordered = false;
  max_retransmits = some 0;
  handshake_timeout_ms = 30_000;
  disable_fingerprint_verification = false;
}

abbrev pub around : Surroundings
around = record { clock = 9_000_000_000; clock_again = 9_000_000_001; provider = ok tt }

-- What construction returns.
abbrev pub tunnel : DirectTunnel toy
tunnel = record {
  role = offerer;
  ice = record toy_agent { credentials = some (record { ufrag = text "them"; pwd = text "pwd" }) };
  dtls = [];
  dtls_config = some tt;
  local_fingerprint = text "ab:0c";
  sctp = none;
  sctp_config = none;
  association = none;
  association_handle = none;
  local_addr = toy_addr;
  remote_addr = toy_addr;
  sctp_port = 5000;
  stream_id = 0;
  ordered = false;
  max_retransmits = 0;
  remote_fingerprint = text "ab:0c";
  fingerprint_algorithm = text "sha-256";
  disable_fingerprint_verification = false;
  dtls_started = false;
  dtls_connected = false;
  sctp_connected = false;
  channel_dialed = false;
  opened = false;
  finished = false;
  dropped_datagrams = 0;
  epoch = 8_900_000_000;
  last_now = 9_000_000_000;
  handshake_deadline = 39_000_000_000;
  send_buffer_cap = 1_048_576;
  events = [];
  trace = record {
    start_ms = 100;
    ice_ms = none;
    dtls_ms = none;
    sctp_ms = none;
    opened_ms = none;
  };
}

pub tunnel-built : begin toy around offerer settings toy_addr 100 ≡ ok tunnel
unfolding begin build with_provider with_agent equip prepare_dtls prepared fingerprinted
    fingerprint_of hex_of hex_join configured add_candidates add_candidate with_candidate with_ice
    set_credentials start_checks initial epoch_of Trace.new text
tunnel-built = refl

-- The same without a cap on retransmissions.
abbrev pub without_cap : TunnelConfig
without_cap = record settings { max_retransmits = none }

pub without_cap-built : begin toy around offerer without_cap toy_addr 100 ≡ ok tunnel
unfolding begin build with_provider with_agent equip prepare_dtls prepared fingerprinted
    fingerprint_of hex_of hex_join configured add_candidates add_candidate with_candidate with_ice
    set_credentials start_checks initial epoch_of Trace.new text
without_cap-built = refl

-- The peer answers the check and ends the DTLS handshake, which connects SCTP and opens the channel.
abbrev pub calls : List HostCall
calls = receives 110 (1 ∷ []) ∷ receives 120 (22 ∷ []) ∷ []

abbrev pub ended : Session toy
ended = run calls (start tunnel)

pub ended-open : ended.tunnel.opened ≡ true
unfolding run step receive tick send close after_poll poll_event pop_front take_in ingest classify
    is_stun is_dtls ingest_stun ingest_dtls fed_dtls feed_dtls count_drop dtls_events dtls_event
    feed_sctp datagram_event start_sctp connected_to activate_dtls connect_dtls time_out
    time_out_association expire instant ms pump start_dtls drain_secured drain_sctp drain_channel
    drain_sctp_transmits drain_dtls_transmits drain_ice_events drain_ice_writes ice_event_step
    ice_event ice_write_step dtls_transmit_step poll_association sctp_events act_on_seen
    mark_connected mark_lost open_stream stream_opened params_set reliability maybe_open finish
    read_stream read_step read_chunks deliver deliver_payload sctp_event_step see
    endpoint_event_step forward transmit_step write_payload write_raw raw_written observe_ice
    observe_dtls observe_sctp observe_open while_some while_ok for_each
ended-open = refl

run_announces_once_example :
    (closes (history ended) ≡ flag ended.tunnel.finished)
    × (opens (history ended) ≡ flag ended.tunnel.opened)
run_announces_once_example =
    Safety.run_announces_once around offerer settings toy_addr 100 tunnel tunnel-built calls

run_open_secured_example :
    (ended.tunnel.dtls_connected ≡ true)
    × (ended.tunnel.sctp_connected ≡ true)
    × (ended.tunnel.channel_dialed ≡ true)
    × (is_some ended.tunnel.association ≡ true)
run_open_secured_example =
    Safety.run_open_secured around offerer settings toy_addr 100 tunnel tunnel-built calls
      ended-open

run_traced_example :
    (ended.tunnel.trace.start_ms ≡ 100)
    × (is_some ended.tunnel.trace.dtls_ms ≡ ended.tunnel.dtls_connected)
    × (is_some ended.tunnel.trace.sctp_ms ≡ ended.tunnel.sctp_connected)
    × (is_some ended.tunnel.trace.opened_ms ≡ ended.tunnel.opened)
    × ((ended.tunnel.trace.ice_ms ≡ none) ⊎ Reported toy)
    × (is_some (drain_ice_events ended.tunnel).trace.ice_ms
        ≡ is_some ended.tunnel.trace.ice_ms
          || news toy (suc (toy.ice_event_count ended.tunnel.ice)) ended.tunnel.ice)
run_traced_example =
    Safety.run_traced around offerer settings toy_addr 100 tunnel tunnel-built calls

run-tick_decides_example :
    ((step (ticks 30_100) ended).tunnel.opened ≡ true)
    ⊎ ((step (ticks 30_100) ended).tunnel.finished ≡ true)
run-tick_decides_example =
    Safety.run-tick_decides around offerer settings toy_addr 100 tunnel tunnel-built calls 30_100
      (omega arith)

deferred-eq-receive_example :
    (if tunnel.opened
      then finish_input_batch (receive_deferred 110 (1 ∷ []) tunnel)
      else receive_deferred 110 (1 ∷ []) tunnel)
    ≡ receive 110 (1 ∷ []) tunnel
deferred-eq-receive_example = deferred-eq-receive 110 (1 ∷ []) tunnel

sent : (send (8 ∷ []) ended.tunnel).0 ≡ accepted
unfolding run step receive tick send send_on over_cap framed written buffered flush close after_poll
    poll_event pop_front take_in ingest classify is_stun is_dtls ingest_stun ingest_dtls fed_dtls
    feed_dtls count_drop dtls_events dtls_event feed_sctp datagram_event start_sctp connected_to
    activate_dtls connect_dtls time_out time_out_association expire instant ms pump start_dtls
    drain_secured drain_sctp drain_channel drain_sctp_transmits drain_dtls_transmits
    drain_ice_events drain_ice_writes ice_event_step ice_event ice_write_step dtls_transmit_step
    poll_association sctp_events act_on_seen mark_connected mark_lost open_stream stream_opened
    params_set reliability maybe_open finish read_stream read_step read_chunks deliver
    deliver_payload sctp_event_step see endpoint_event_step forward transmit_step write_payload
    write_raw raw_written observe_ice observe_dtls observe_sctp observe_open while_some while_ok
    for_each
sent = refl

send-accepted_example : (a : ToyAssociation) × Sendable (8 ∷ []) ended.tunnel a
send-accepted_example = send-accepted (8 ∷ []) ended.tunnel sent

too_soon : (send (8 ∷ []) tunnel).0 ≢ accepted
unfolding send
too_soon e = cc

send-refused_example :
    ((send (8 ∷ []) tunnel).1.events ≡ tunnel.events)
    × ((send (8 ∷ []) tunnel).1.opened ≡ tunnel.opened)
    × ((send (8 ∷ []) tunnel).1.finished ≡ tunnel.finished)
send-refused_example = send-refused (8 ∷ []) tunnel too_soon

empty_marked : toy.ppi (0 ∷ []) ≡ (framed []).0
unfolding framed
empty_marked = refl

empty_carried : toy.to_payload max_message_size (0 ∷ []) ≡ ok (framed []).1
unfolding framed
empty_carried = refl

framed-read_chunks_example :
    read_chunks (ok (some (0 ∷ []))) tunnel ≡ done true (push_back (message []) tunnel)
framed-read_chunks_example = framed-read_chunks [] (0 ∷ []) tunnel empty_marked empty_carried

next_deadline-le_example :
    (d : ℕ) × (next_deadline tunnel ≡ some d) × (d ≤ ms tunnel tunnel.handshake_deadline)
next_deadline-le_example = next_deadline-le tunnel refl refl (omega arith)

abbrev stopped : DirectTunnel toy
stopped = record tunnel { finished = true }

run-finished_example :
    (history (run calls (start stopped)) ≡ history (start stopped))
    × ((run calls (start stopped)).tunnel.finished ≡ true)
run-finished_example = run-finished calls (start stopped) refl

run-history_example :
    (new : List Event) × (history (run calls (start tunnel)) ≡ history (start tunnel) ++ new)
run-history_example = run-history calls (start tunnel)
