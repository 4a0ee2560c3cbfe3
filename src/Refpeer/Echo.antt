-- ===== src/Refpeer/Echo.antt =====
-- crates/rtc-tunnel-refpeer/src/main.rs: the passive reference peer, which answers an offer and echoes
-- every message of its channel. The peer connection is a parameter, the clock and the socket come as a
-- list of rounds.
pub mod Start
pub mod Lines
pub mod Transcript
pub mod Whole
use rtc_tunnel.Base.{
  ℕ, suc, ◌+◌, Bool, true, false, Option, none, some, List, [], ◌∷◌, ◌++◌, Bytes, Text, text,
  Result, ok, err, Outcome, done, fail, after, if◌then◌else◌, leb, or_default, is_empty, while_some,
  while_ok, polled,
}
use rtc_tunnel.Net.{SocketAddr, Instant, from_millis}
use rtc_tunnel.Str.{trim}
use rtc_tunnel.Backend.Peer.{
  Peer, PeerState, PeerEvent, channel_open, channel_close, other_channel_event, connection_state,
  ice_failed, other_peer_event, PeerMessage, channel_message, other_message, ChannelInit,
}
use rtc_tunnel.Refpeer.Args.{Codecs, arg_value, number_or}

-- The peer connection, with what this program calls beside the tunnel: a builder that takes ICE
-- credentials and answers as the DTLS server, and the address that a datagram is for.
pub record Engine : Type 1 where
  pub peer : Peer
  pub parse_socket_addr : Text → Option SocketAddr
  pub into_bytes : Text → Bytes
  pub build_answering : Text → Text → Instant → Result Text peer.Connection
  pub poll_write_to : peer.Connection → Option ((Bytes × SocketAddr) × peer.Connection)

-- The lines of standard output.
pub data Line : Type 0 where
  ready_line : ℕ → Line
  answer_line : Text → Line
  open_line : Line
  channel_closed_line : Line
  failed_line : Line
  echo_line : ℕ → Line
  done_line : Line

-- How `main` may end early: by an error, or by `exit`.
pub data Stop : Type 0 where
  bad_address : Stop
  io : Text → Stop
  engine : Text → Stop
  exit : ℕ → Stop

pub data Arrival : Type 0 where
  datagram : SocketAddr → Bytes → Arrival
  would_block : Arrival
  broken : Text → Arrival

-- One round of the main loop: the elapsed time at its head, what the socket has, and the readings of
-- the clock: when the n-th echo is sent, when the datagram is read, and for the timeouts.
pub record Round : Type 0 where
  pub elapsed : ℕ
  pub arrival : Arrival
  pub send_at : ℕ → Instant
  pub read_at : Instant
  pub timeout_at : Instant

pub record Echoer (E : Engine) : Type 0 where
  pub pc : E.peer.Connection
  pub opened : Bool
  pub echoes : ℕ
  pub printed : List Line
  pub on_socket : List (Bytes × SocketAddr)

module _ (E : Engine) where
  open E.peer use {Connection, ChannelId}

  abbrev pub print : Line → Echoer E → Echoer E
  print l s = record s { printed = s.printed ++ l ∷ [] }

  unfoldable pub write_step : Echoer E → Option (Echoer E)
  write_step s =
      polled (E.poll_write_to s.pc)
        λ datagram pc. record s { pc = pc; on_socket = s.on_socket ++ datagram ∷ [] }

  unfoldable pub drain_writes : Echoer E → Echoer E
  drain_writes s = while_some write_step (suc (E.peer.write_count s.pc)) s

  unfoldable pub on_open : Echoer E → Echoer E
  on_open s = if s.opened then s else print open_line (record s { opened = true })

  -- The `match` on an event, and whether the loop goes on.
  unfoldable pub on_event : PeerEvent → Echoer E → Outcome (Unit {0}) (Echoer E) Bool
  on_event channel_open s = done true (on_open s)
  on_event channel_close s = done true (print channel_closed_line s)
  on_event other_channel_event s = done true s
  on_event (connection_state PeerState.failed) s = done false (print failed_line s)
  on_event (connection_state PeerState.connected) s = done true s
  on_event (connection_state PeerState.disconnected) s = done true s
  on_event (connection_state PeerState.closed) s = done true s
  on_event (connection_state PeerState.other_peer_state) s = done true s
  on_event ice_failed s = done true s
  on_event other_peer_event s = done true s

  unfoldable pub event_step : Echoer E → Outcome (Unit {0}) (Echoer E) Bool
  event_step s = elim (E.peer.poll_peer_event s.pc) [
    | none ↦ done false s
    | some (event, pc) ↦ on_event event (record s { pc = pc })
  ]

  unfoldable pub drain_events : Echoer E → Echoer E
  drain_events s = after (while_ok event_step (suc (E.peer.event_count s.pc)) s)

  -- An echo counts whether or not the channel took it.
  unfoldable pub echo : ChannelId → Instant → Bytes → Echoer E → Echoer E
  echo handle now bytes s =
      if E.peer.has_channel handle s.pc
      then print (echo_line (s.echoes + 1)) (record s {
        pc = (E.peer.send_on_channel handle now bytes s.pc).1;
        echoes = s.echoes + 1;
      })
      else s

  unfoldable pub on_message : ChannelId → Instant → PeerMessage → Echoer E → Echoer E
  on_message handle now (channel_message bytes) s = echo handle now bytes s
  on_message handle now other_message s = s

  unfoldable pub read_step : ChannelId → (ℕ → Instant) → Echoer E → Option (Echoer E)
  read_step handle send_at s =
      polled (E.peer.poll_read s.pc)
        λ m pc. on_message handle (send_at s.echoes) m (record s { pc = pc })

  unfoldable pub drain_reads : ChannelId → (ℕ → Instant) → Echoer E → Echoer E
  drain_reads handle send_at s =
      while_some (read_step handle send_at) (suc (E.peer.read_count s.pc)) s

  unfoldable pub receive_from :
      SocketAddr → Instant → Arrival → Echoer E → Outcome Stop (Echoer E) (Unit {0})
  receive_from local_addr now (datagram from bytes) s =
      done tt (record s { pc = (E.peer.handle_read now local_addr from bytes s.pc).1 })
  receive_from local_addr now would_block s = done tt s
  receive_from local_addr now (broken e) s = fail (io e) s

  unfoldable pub turn :
      SocketAddr → ChannelId → Round → Echoer E → Outcome Stop (Echoer E) (Unit {0})
  turn local_addr handle r s =
      elim (receive_from local_addr r.read_at r.arrival
        (drain_reads handle r.send_at (drain_events (drain_writes s)))) [
          | fail e s' ↦ fail e s'
          | done _ s' ↦ done tt (record s' { pc = E.peer.handle_timeout r.timeout_at s'.pc })
        ]

  unfoldable pub farewell : Echoer E → Echoer E
  farewell s = print done_line (record s { pc = E.peer.close_connection s.pc })

  -- `while start.elapsed() < lifetime`, and what follows it; false is returned where the rounds end
  -- before the loop does.
  unfoldable pub serve :
      SocketAddr → ChannelId → ℕ → List Round → Echoer E → Outcome Stop (Echoer E) Bool
  serve local_addr handle lifetime [] s = done false s
  serve local_addr handle lifetime (r ∷ rounds) s =
      if leb lifetime r.elapsed then done true (farewell s) else elim (turn local_addr handle r s) [
        | fail e s' ↦ fail e s'
        | done _ s' ↦ serve local_addr handle lifetime rounds s'
      ]
