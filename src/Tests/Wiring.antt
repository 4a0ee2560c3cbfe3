-- ===== src/Tests/Wiring.antt =====
-- Two tunnels introduced to each other and pumped, and what the host of a bare wasm module supplies.
use rtc_tunnel.Base.{
  ℕ, ◌%◌, ◌^◌, ◌≡◌, ◌↔◌, ◌⊎◌, refl, true, false, some, List, [], ◌∷◌, ◌++◌, map, Bytes, Text, text,
  ok, arith, while_some,
}
use rtc_tunnel.Event.{send_datagram, opened, message}
use rtc_tunnel.Str.{is_whitespace}
use rtc_tunnel.Str.Words.{IsWord}
use rtc_tunnel.Str.Fields.{AreWords, spaced}
use rtc_tunnel.Direct.State.{DirectTunnel, answerer}
use rtc_tunnel.Direct.Output.{send, poll_event, pop_front}
use rtc_tunnel.Direct.Output.Messages.{send-Sends}
use rtc_tunnel.Direct.Sdp.{parse, render_sdp, parse_candidate_addr}
use rtc_tunnel.Direct.Sdp.Offer.{Readable, parse-render_sdp}
use rtc_tunnel.Bench.{
  Pair, pump_pair, pump_round, pump_rounds, drain_offerer, drain_answerer, offerer_step,
  answerer_step, took_offerer, took_answerer, from_offerer, from_answerer,
}
use rtc_tunnel.Bench.Connect.{introduced}
use rtc_tunnel.Bench.Quiescent.{pump_pair_quiet}
use rtc_tunnel.Bench.Exchange.{introduced-offerer}
use rtc_tunnel.Host.Entropy.{host_fill, Agree, entropy_agrees}
use rtc_tunnel.Host.Time.{Between, sub_time, sub_time-Between}
use rtc_tunnel.Tests.Toy.{toy, toy_addr, toy_agent}
use rtc_tunnel.Tests.Core.{tunnel, ended}
use rtc_tunnel.Tests.Peer.{sha256-IsWord, fingerprint-IsWord, fingerprint-filled}

abbrev pub fields : List Text
fields =
    text "1"
    ∷ text "1"
    ∷ text "udp"
    ∷ text "1"
    ∷ text "127.0.0.1"
    ∷ text "4000"
    ∷ text "typ"
    ∷ text "host"
    ∷ []

pub fields-AreWords : AreWords fields
unfolding text is_whitespace
fields-AreWords = ground arith

pub us-IsWord : IsWord (text "us")
unfolding text is_whitespace
us-IsWord = (refl, (refl, tt))

pub secret-IsWord : IsWord (text "secret")
unfolding text is_whitespace
secret-IsWord = ground arith

abbrev passive : DirectTunnel toy
passive = record tunnel { role = answerer }

setup-IsWord : IsWord (text "passive")
unfolding text is_whitespace
setup-IsWord = ground arith

candidate-spelled : toy.first_local_candidate passive.ice ≡ some (spaced fields)
unfolding text spaced
candidate-spelled = refl

passive-Readable : Readable (text "passive") passive toy_addr
unfolding parse_candidate_addr
passive-Readable = record {
  foundation = text "1";
  protocol = text "udp";
  priority = text "1";
  address = text "127.0.0.1";
  port = text "4000";
  more = [];
  setup_word = setup-IsWord;
  algorithm_word = sha256-IsWord;
  fingerprint_word = fingerprint-IsWord;
  fingerprint_filled = fingerprint-filled;
  ufrag_word = us-IsWord;
  pwd_word = secret-IsWord;
  fields_words = fields-AreWords;
  spelled = candidate-spelled;
  resolved = refl;
}

parse-render_sdp_example :
    parse toy (render_sdp (text "passive") passive)
    ≡ ok (record {
      ufrag = text "us";
      pwd = text "secret";
      remote = toy_addr;
      fingerprint = text "ab:0c";
    })
parse-render_sdp_example = parse-render_sdp (text "passive") passive toy_addr passive-Readable

introduced-offerer_example :
    introduced toy tunnel passive
    ≡ some (record {
      offerer = record tunnel {
        ice = record toy_agent {
          credentials = some (record { ufrag = text "us"; pwd = text "secret" });
        };
        remote_fingerprint = text "ab:0c";
      };
      answerer = passive;
      received = 0;
      moved = false;
    })
introduced-offerer_example =
    introduced-offerer tunnel passive toy_addr passive-Readable
      (record toy_agent { credentials = some (record { ufrag = text "us"; pwd = text "secret" }) })
      refl refl

abbrev wired : Pair toy
wired = record {
  offerer = record tunnel { events = opened ∷ [] };
  answerer = record passive { events = opened ∷ message (7 ∷ []) ∷ [] };
  received = 0;
  moved = false;
}

wired-still : (pump_pair 1 130 wired).moved ≡ false
unfolding pump_pair pump_rounds pump_round drain_offerer drain_answerer offerer_step answerer_step
    took_offerer took_answerer from_offerer from_answerer while_some poll_event pop_front
wired-still = refl

pump_pair_quiet_example :
    ((pump_pair 1 130 wired).offerer.events ≡ []) × ((pump_pair 1 130 wired).answerer.events ≡ [])
pump_pair_quiet_example = pump_pair_quiet 130 0 wired wired-still

send-Sends_example :
    (out : List Bytes) × ((send (8 ∷ []) ended.tunnel).1.events
      ≡ ended.tunnel.events ++ map send_datagram out)
send-Sends_example = send-Sends (8 ∷ []) ended.tunnel

-- A host that has a seven for every request.
abbrev sevens : ℕ → Bytes × ℕ
sevens n = (7 ∷ [], n)

entropy_agrees_example :
    Agree sevens 1 (host_fill sevens 1).0 (host_fill sevens 1).1
    × (((host_fill sevens 1).1 ≡ true) ↔ ((◌≡◌ {A = ℕ} 1 0) ⊎ ((sevens 1).1 ≡ 1 % 2 ^ 32)))
entropy_agrees_example = entropy_agrees sevens 1

sub_time-Between_example : Between 3 5 (sub_time 3 5)
sub_time-Between_example = sub_time-Between 3 5 (omega arith) (omega arith)
