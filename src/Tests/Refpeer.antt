-- ===== src/Tests/Refpeer.antt =====
-- crates/rtc-tunnel-refpeer/src: both reference peers, started and fed.
use rtc_tunnel.Base.{
  ℕ, ◌+◌, ◌≡◌, refl, after, flag, true, false, none, some, List, [], ◌∷◌, ◌++◌, Text, text, ok,
  done,
}
use rtc_tunnel.Config
use rtc_tunnel.Net.{is_ipv4}
use rtc_tunnel.Trace
use rtc_tunnel.Str.{
  lines, trim, trim_start, trim_end, is_whitespace, strip_prefix, split_whitespace, text_eq,
  contains_char, hex_join,
}
use rtc_tunnel.Direct.State.{DirectTunnel, answerer, with_ice}
use rtc_tunnel.Direct.Sdp.{
  parse, read_lines, read_line, read_pwd, read_fingerprint, read_candidate, candidate_fields,
  parse_candidate_addr, candidate_host, complete, answer_sdp, render_sdp,
}
use rtc_tunnel.Direct.Setup
use rtc_tunnel.Direct.Setup.{
  answer, with_offer, begin, initial, epoch_of, build, with_provider, with_agent, equip,
  prepare_dtls, fingerprinted, configured, add_candidates, add_candidate, with_candidate,
  set_credentials, start_checks,
}
use rtc_tunnel.Direct.Verify.{fingerprint_of, hex_of}
use rtc_tunnel.Refpeer.Args.{Codecs, arg_value, number_or}
use rtc_tunnel.Refpeer.Answerer.{
  Line, port_line, answer_line, candidate_address, first_candidate, candidate_of, udp_address,
  eq_ignore_ascii_case,
}
use rtc_tunnel.Refpeer.Answerer.Start.{
  World, prepare, read_offer, decoded, answered, announce, answerer_config,
}
use rtc_tunnel.Refpeer.Answerer.{
  Arrival, datagram, would_block, Round, Answerer, serve, take_events,
}
use rtc_tunnel.Refpeer.Answerer.Start.{begun}
use rtc_tunnel.Refpeer.Answerer.Lines.{open_lines, closed_lines, numbers}
use rtc_tunnel.Refpeer.Answerer.Ends.{take_events_ends}
use rtc_tunnel.Refpeer.Answerer.Whole.{answerer_transcript}
use rtc_tunnel.Refpeer.Numbered.{count_up}
use rtc_tunnel.Refpeer.Echo
use rtc_tunnel.Refpeer.Echo.{Engine, Echoer}
use rtc_tunnel.Refpeer.Echo.Start
use rtc_tunnel.Refpeer.Echo.Lines
use rtc_tunnel.Refpeer.Echo.Whole.{echo_transcript}
use rtc_tunnel.Event.{message}
use rtc_tunnel.Event.Count.{opens, closes}
use rtc_tunnel.Backend.Peer.{channel_open, channel_message}
use rtc_tunnel.Tests.ToyPeer.{toy_peer}
use rtc_tunnel.Tests.Toy.{toy, toy_addr, toy_agent}
use rtc_tunnel.Tests.Core.{around, tunnel, ended}

abbrev plain : Codecs
plain = record {
  b64_encode = λ b. b;
  b64_decode = λ t. ok t;
  parse_u16 = λ t. some 0;
  parse_u64 = λ t. some 1000;
}

-- The whole offer on one line, as base64 would be: here line feeds are the character 33.
abbrev offer_text : Text
offer_text =
    text "a=ice-ufrag:us"
    ++ (10 ∷ text "a=ice-pwd:secret")
    ++ (10 ∷ [])
    ++ text "a=candidate:1 1 UDP 1 127.0.0.1 4000 typ host"

abbrev world : World
world = record {
  args = text "--stream-id" ∷ text "0" ∷ [];
  bound = λ _. ok toy_addr;
  input = ok (text "hello") ∷ ok (text "OFFER " ++ offer_text) ∷ [];
  around = around;
}

-- The tunnel of the process at the head of its loop.
abbrev answering : DirectTunnel toy
answering = record tunnel {
  role = answerer;
  ice = record toy_agent { credentials = some (record { ufrag = text "us"; pwd = text "secret" }) };
  remote_fingerprint = [];
  disable_fingerprint_verification = true;
  epoch = 9_000_000_000;
  trace = Trace.new 0;
}

abbrev announced : List Line
announced = port_line 4000 ∷ answer_line (render_sdp (text "passive") answering) ∷ []

prepared : prepare plain toy world ≡ done answering announced
unfolding prepare arg_value number_or read_offer decoded answered announce candidate_address
    first_candidate candidate_of udp_address eq_ignore_ascii_case answerer_config Config.new answer
    parse read_lines read_line read_pwd read_fingerprint read_candidate candidate_fields
    parse_candidate_addr candidate_host complete with_offer is_ipv4 lines trim trim_start trim_end
    is_whitespace strip_prefix split_whitespace text_eq contains_char answer_sdp begin build
    with_provider with_agent equip prepare_dtls Setup.prepared fingerprinted fingerprint_of hex_of
    hex_join configured add_candidates add_candidate with_candidate with_ice set_credentials
    start_checks initial epoch_of Trace.new text
prepared = refl

quiet_round : ℕ → Arrival → Round
quiet_round at arrival = record { at_test = at; at_tick = at; at_receive = at; arrival = arrival }

abbrev rounds : List Round
rounds =
    quiet_round 0 (datagram (0 ∷ 1 ∷ []))
    ∷ quiet_round 1_000_000 (datagram (22 ∷ []))
    ∷ quiet_round 2_000_000 would_block
    ∷ quiet_round 3_000_000 (datagram (23 ∷ 7 ∷ []))
    ∷ quiet_round 31_000_000_000 would_block
    ∷ []

-- The process after those rounds.
abbrev served : Answerer toy
served = after (serve plain 9 60_000_000_000 rounds (begun plain toy answering announced))

answerer_transcript_example :
    (open_lines served.printed + opens served.tunnel.events ≡ flag served.tunnel.opened)
    × (closed_lines served.printed + closes served.tunnel.events ≡ flag served.tunnel.finished)
    × (numbers served.printed ≡ count_up served.echoes)
answerer_transcript_example =
    answerer_transcript plain toy world answering announced prepared 9 60_000_000_000 rounds

-- A message is waiting to be echoed, and the channel is open.
abbrev loaded : Answerer toy
loaded = record (begun plain toy ended.tunnel []) {
  tunnel = record ended.tunnel { events = message (7 ∷ []) ∷ message (8 ∷ []) ∷ [] };
}

take_events_ends_example : (fuel : ℕ) × ((take_events plain fuel loaded).tunnel.events ≡ [])
take_events_ends_example = take_events_ends plain loaded

-- The other peer's engine: the miniature peer connection, which reports that its channel opened twice.
abbrev engine : Engine
engine = record {
  peer = toy_peer;
  parse_socket_addr = λ _. some toy_addr;
  into_bytes = λ s. s;
  build_answering = λ u p now. ok (record {
    news = channel_open ∷ channel_open ∷ [];
    writes = [];
    reads = channel_message (7 ∷ []) ∷ [];
    is_open = true;
  });
  poll_write_to = λ pc. none;
}

abbrev echo_world : Echo.Start.World
echo_world = record {
  args = [];
  bound = λ _. ok toy_addr;
  input = ok (text "offer");
  build_at = 1;
  remote_at = 2;
  local_at = 3;
}

abbrev echoing : Echoer engine
echoing = record {
  pc = record {
    news = channel_open ∷ channel_open ∷ [];
    writes = (1 ∷ []) ∷ [];
    reads = channel_message (7 ∷ []) ∷ [];
    is_open = true;
  };
  opened = false;
  echoes = 0;
  printed = Echo.ready_line 4000 ∷ Echo.answer_line (text "offer") ∷ [];
  on_socket = [];
}

echo_prepared :
    Echo.Start.prepare plain engine echo_world ≡ done (toy_addr, tt, echoing) echoing.printed
unfolding Echo.Start.prepare Echo.Start.listening Echo.Start.given_offer Echo.Start.answered
    Echo.Start.negotiate Echo.Start.ufrag_of Echo.Start.pwd_of arg_value trim trim_start trim_end
    is_whitespace text Echo.Start.channel_init
echo_prepared = refl

abbrev echo_rounds : List Echo.Round
echo_rounds =
    record {
      elapsed = 0;
      arrival = Echo.datagram toy_addr (9 ∷ []);
      send_at = λ n. n;
      read_at = 4;
      timeout_at = 5;
    }
    ∷ []

abbrev echo_served : Echoer engine
echo_served = after (Echo.serve engine toy_addr tt 1000 echo_rounds echoing)

echo_transcript_example :
    (Echo.Lines.open_lines echo_served.printed ≡ flag echo_served.opened)
    × (Echo.Lines.numbers echo_served.printed ≡ count_up echo_served.echoes)
echo_transcript_example =
    echo_transcript plain engine echo_world toy_addr tt echoing echoing.printed echo_prepared 1000
      echo_rounds
