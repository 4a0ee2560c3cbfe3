-- ===== src/Tests/Dialed.antt =====
-- crates/rtc-tunnel-core/src/direct/mod.rs: dials of the channel, one without a cap on
-- retransmissions and one that fails.
use rtc_tunnel.Base.{
  ◌≡◌, refl, true, false, not, none, some, [], ◌∷◌, text, err, done, fail, while_some, while_ok,
  for_each,
}
use rtc_tunnel.Event.{Event, TunnelError}
use rtc_tunnel.Trace.{observe_ice, observe_dtls, observe_sctp, observe_open}
use rtc_tunnel.Platform.{Platform, rexmit}
use rtc_tunnel.Direct.Change.{IsValid}
use rtc_tunnel.Direct.State.{
  DirectTunnel, offerer, is_stun, is_dtls, instant, ms, maybe_open, finish, config_error,
}
use rtc_tunnel.Direct.Pump.{
  feed_dtls, dtls_events, dtls_event, feed_sctp, datagram_event, start_sctp, connected_to,
  activate_dtls, connect_dtls, drain_dtls_transmits, drain_ice_events, drain_ice_writes,
  ice_event_step, ice_event, ice_write_step, dtls_transmit_step, read_stream, read_step,
  read_chunks, deliver, deliver_payload,
}
use rtc_tunnel.Direct.Sctp.{
  pump, start_dtls, drain_secured, drain_sctp, drain_channel, drain_sctp_transmits,
  poll_association, sctp_events, act_on_seen, mark_connected, mark_lost, open_stream, stream_opened,
  params_set, reliability, sctp_event_step, see, endpoint_event_step, forward, transmit_step,
  write_payload, write_raw, raw_written,
}
use rtc_tunnel.Direct.Input.{
  receive, take_in, ingest, classify, ingest_stun, ingest_dtls, fed_dtls, count_drop,
}
use rtc_tunnel.Direct.Host.{run, step}
use rtc_tunnel.Direct.Host.Reliability.{unlimited-reliability}
use rtc_tunnel.Direct.Sctp.Dial.{failed_dial-opens}
use rtc_tunnel.Tests.Toy.{ToyAssociation, toy, toy_addr, toy_agent}
use rtc_tunnel.Tests.Core.{tunnel, around, without_cap, without_cap-built, calls, ended}

abbrev joined : ToyAssociation
joined = record { news = []; inbox = []; outbox = []; stream = true }

ended-joined : ended.tunnel.association ≡ some joined
unfolding run step receive take_in ingest classify is_stun is_dtls ingest_stun ingest_dtls fed_dtls
    feed_dtls count_drop dtls_events dtls_event feed_sctp datagram_event start_sctp connected_to
    activate_dtls connect_dtls instant ms pump start_dtls drain_secured drain_sctp drain_channel
    drain_sctp_transmits drain_dtls_transmits drain_ice_events drain_ice_writes ice_event_step
    ice_event ice_write_step dtls_transmit_step poll_association sctp_events act_on_seen
    mark_connected mark_lost open_stream stream_opened params_set reliability maybe_open finish
    read_stream read_step read_chunks deliver deliver_payload sctp_event_step see
    endpoint_event_step forward transmit_step write_payload write_raw raw_written observe_ice
    observe_dtls observe_sctp observe_open while_some while_ok for_each
ended-joined = refl

unlimited-reliability_example :
    open_stream ended.tunnel
    ≡ params_set
        (toy.set_reliability_params ended.tunnel.stream_id
          (not ended.tunnel.ordered)
          rexmit
          0
          joined)
        (record ended.tunnel { channel_dialed = true })
unlimited-reliability_example =
    unlimited-reliability around offerer without_cap toy_addr 100 tunnel without_cap-built refl
      calls joined joined ended-joined refl

-- The toy's crates, but no stream can be opened.
abbrev refusing : Platform
refusing = record toy { open_stream = λ _ _ a. (err (text "no stream left"), a) }

abbrev unopened : ToyAssociation
unopened = record { news = []; inbox = []; outbox = []; stream = false }

-- Every layer is connected, and the channel is to be dialed next.
abbrev connected : DirectTunnel refusing
connected = record {
  role = offerer;
  ice = record toy_agent { selected = true };
  dtls = [];
  dtls_config = some tt;
  local_fingerprint = text "ab:0c";
  sctp = some tt;
  sctp_config = some tt;
  association = some unopened;
  association_handle = some tt;
  local_addr = toy_addr;
  remote_addr = toy_addr;
  sctp_port = 5000;
  stream_id = 0;
  ordered = false;
  max_retransmits = 0;
  remote_fingerprint = text "ab:0c";
  fingerprint_algorithm = text "sha-256";
  disable_fingerprint_verification = false;
  dtls_started = true;
  dtls_connected = true;
  sctp_connected = true;
  channel_dialed = false;
  opened = false;
  finished = false;
  dropped_datagrams = 0;
  epoch = 8_900_000_000;
  last_now = 9_020_000_000;
  handshake_deadline = 39_000_000_000;
  send_buffer_cap = 1_048_576;
  events = [];
  trace = record {
    start_ms = 100;
    ice_ms = some 110;
    dtls_ms = some 120;
    sctp_ms = some 120;
    opened_ms = none;
  };
}

connected-IsValid : IsValid connected
connected-IsValid = record {
  open_dialed = λ h. absurd (cc);
  dialed_connected = λ _. refl;
  connected_associated = λ _. refl;
  associated_handle = refl;
  associated_sctp = λ _. refl;
  sctp_secured = λ _. refl;
  open_traced = refl;
  sctp_traced = refl;
  dtls_traced = refl;
}

abbrev refused : DirectTunnel refusing
refused = record connected { channel_dialed = true }

abbrev refusal : TunnelError
refusal = config_error "open stream: " (text "no stream left")

failed_dial : open_stream connected ≡ fail refusal refused
unfolding open_stream stream_opened
failed_dial = refl

failed_dial-opens_example :
    ((maybe_open refused).opened ≡ true)
    × ((maybe_open refused).events ≡ Event.opened ∷ [])
    × (drain_channel refused ≡ done tt refused)
failed_dial-opens_example = failed_dial-opens connected refused refusal refl refl failed_dial
