-- ===== src/Refpeer/Answerer.antt =====
-- crates/rtc-tunnel-refpeer/src/answerer.rs: a process that answers an offer from its input and echoes
-- what its channel brings. The clock and the socket come as a list of rounds, what is printed and what
-- is put on the socket are lists.
pub mod Start
pub mod Lines
pub mod Transcript
pub mod Ends
pub mod Whole
use rtc_tunnel.Base.{
  ℕ, suc, ◌+◌, ◌/◌, ◌%◌, ◌*◌, ◌^◌, Bool, true, false, ◌&&◌, Option, none, some, List, [], ◌∷◌, ◌++◌,
  map, Bytes, Text, text, Result, ok, err, Outcome, done, fail, if◌then◌else◌, leb, or_default,
  while_some,
}
use rtc_tunnel.Net.{SocketAddr, from_millis}
use rtc_tunnel.Config.{TunnelConfig}
use rtc_tunnel.Config
use rtc_tunnel.Event.{
  CloseReason, Event, send_datagram, opened, message, closed, SendResult, accepted, TunnelError,
}
use rtc_tunnel.Str.{trim, text_eq, strip_prefix, lines, split_whitespace}
use rtc_tunnel.Platform.{Platform}
use rtc_tunnel.Direct.State.{DirectTunnel}
use rtc_tunnel.Direct.Input.{receive, tick}
use rtc_tunnel.Direct.Output.{send, poll_event}
use rtc_tunnel.Direct.Sdp.{answer_sdp}
use rtc_tunnel.Direct.Setup.{Surroundings, answer}
use rtc_tunnel.Refpeer.Args.{Codecs, arg_value, number_or}

-- The lines of standard output.
pub data Line : Type 0 where
  port_line : ℕ → Line
  answer_line : Text → Line
  open_line : Line
  msg_line : ℕ → Text → Line
  closed_line : Text → Line

-- What `main` may return as an error.
pub data Failure : Type 0 where
  bad_address : Failure
  io : Text → Failure
  bad_base64 : Text → Failure
  bad_utf8 : Failure
  missing : Text → Failure
  refused : TunnelError → Failure

-- What `recv_from` gives: a datagram, nothing yet, or an error.
pub data Arrival : Type 0 where
  datagram : Bytes → Arrival
  would_block : Arrival
  broken : Text → Arrival

-- One round of the main loop: the three readings of `start.elapsed()`, and what the socket has.
pub record Round : Type 0 where
  pub at_test : ℕ
  pub at_tick : ℕ
  pub at_receive : ℕ
  pub arrival : Arrival

-- `as_millis() as u64`
unfoldable pub elapsed_ms : ℕ → ℕ
elapsed_ms elapsed = elapsed / 1_000_000 % 2 ^ 64

unfoldable pub close_name : CloseReason → Text
close_name CloseReason.local = text "local"
close_name CloseReason.remote = text "remote"
close_name CloseReason.timeout = text "timeout"
close_name CloseReason.failure = text "failure"

-- `eq_ignore_ascii_case`
abbrev ascii_lower : ℕ → ℕ
ascii_lower c = if leb 65 c && leb c 90 then c + 32 else c

unfoldable pub eq_ignore_ascii_case : Text → Text → Bool
eq_ignore_ascii_case a b = text_eq (map ascii_lower a) (map ascii_lower b)

module _ (P : Platform) where
  -- `candidate_address`: at least six fields, component 1, over UDP.
  unfoldable pub udp_address : List Text → Option SocketAddr
  udp_address (_ ∷ component ∷ protocol ∷ _ ∷ address ∷ port ∷ _) =
      if text_eq component (text "1") && eq_ignore_ascii_case protocol (text "udp")
      then P.parse_socket_addr (address ++ (text ":" ++ port))
      else none
  udp_address _ = none

  unfoldable pub candidate_of : Text → Option SocketAddr
  candidate_of line = elim (strip_prefix (text "a=candidate:") line) [
    | none ↦ none
    | some rest ↦ udp_address (split_whitespace rest)
  ]

  unfoldable pub first_candidate : List Text → Option SocketAddr
  first_candidate [] = none
  first_candidate (raw ∷ rest) =
      let later = first_candidate rest in
      elim (candidate_of (trim raw)) [ some addr ↦ some addr | none ↦ later ]

  unfoldable pub candidate_address : Text → Option SocketAddr
  candidate_address sdp = first_candidate (lines sdp)

-- What the process works on: the tunnel, its standard output and the datagrams put on the socket; and
-- the two variables of one round.
pub record Answerer (P : Platform) : Type 0 where
  pub tunnel : DirectTunnel P
  pub echoes : ℕ
  pub printed : List Line
  pub on_socket : List Bytes
  pub outgoing : List Bytes
  pub terminal : Option Text

module _ (k : Codecs) {P : Platform} where
  abbrev pub print : Line → Answerer P → Answerer P
  print l a = record a { printed = a.printed ++ l ∷ [] }

  unfoldable pub echoed : Bytes → SendResult × DirectTunnel P → Answerer P → Answerer P
  echoed bytes (accepted, t) a =
      print (msg_line (a.echoes + 1) (k.b64_encode bytes))
        (record a { tunnel = t; echoes = a.echoes + 1 })
  echoed bytes (SendResult.backpressure, t) a = record a { tunnel = t }
  echoed bytes (SendResult.too_large, t) a = record a { tunnel = t }
  echoed bytes (SendResult.not_open, t) a = record a { tunnel = t }

  unfoldable pub on_event : Event → Answerer P → Answerer P
  on_event (send_datagram bytes) a = record a { outgoing = a.outgoing ++ bytes ∷ [] }
  on_event opened a = print open_line a
  on_event (message bytes) a = echoed bytes (send bytes a.tunnel) a
  on_event (closed reason) a = record a { terminal = some (close_name reason) }

  unfoldable pub polled_event : Option Event × DirectTunnel P → Answerer P → Option (Answerer P)
  polled_event (none, t) a = none
  polled_event (some e, t) a = some (on_event e (record a { tunnel = t }))

  unfoldable pub event_step : Answerer P → Option (Answerer P)
  event_step a = polled_event (poll_event a.tunnel) a

  -- `while let Some(event) = tunnel.poll_event()`
  unfoldable pub take_events : ℕ → Answerer P → Answerer P
  take_events fuel a = while_some event_step fuel a

  -- `for bytes in outgoing { let _ = socket.send_to(&bytes, peer); }`
  unfoldable pub put_on_socket : Answerer P → Answerer P
  put_on_socket a = record a { on_socket = a.on_socket ++ a.outgoing; outgoing = [] }

  unfoldable pub receive_from : ℕ → Arrival → Answerer P → Outcome Failure (Answerer P) Bool
  receive_from elapsed (datagram d) a =
      done true (record a { tunnel = receive (elapsed_ms elapsed) d a.tunnel })
  receive_from elapsed would_block a = done true a
  receive_from elapsed (broken e) a = fail (io e) a

  -- What follows the datagrams: the end of the loop if the tunnel has closed, else the socket.
  unfoldable pub conclude : Round → Answerer P → Outcome Failure (Answerer P) Bool
  conclude r a = elim a.terminal [
    | some name ↦ done false (print (closed_line name) a)
    | none ↦ receive_from r.at_receive r.arrival a
  ]

  -- The body of the main loop. It says whether the loop goes on.
  unfoldable pub turn : ℕ → Round → Answerer P → Outcome Failure (Answerer P) Bool
  turn fuel r a =
      let ticked = record a {
        tunnel = tick (elapsed_ms r.at_tick) a.tunnel;
        outgoing = [];
        terminal = none;
      } in
      conclude r (put_on_socket (take_events fuel ticked))

  -- `while start.elapsed() < lifetime`; true is returned where the rounds end before the loop does.
  unfoldable pub serve : ℕ → ℕ → List Round → Answerer P → Outcome Failure (Answerer P) Bool
  serve fuel lifetime [] a = done true a
  serve fuel lifetime (r ∷ rounds) a =
      if leb lifetime r.at_test then done false a else elim (turn fuel r a) [
        | done true a' ↦ serve fuel lifetime rounds a'
        | done false a' ↦ done false a'
        | fail e a' ↦ fail e a'
      ]
