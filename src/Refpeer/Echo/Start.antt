-- ===== src/Refpeer/Echo/Start.antt =====
-- crates/rtc-tunnel-refpeer/src/main.rs: all that the process does before its loop.
use rtc_tunnel.Base.{
  ℕ, false, none, some, List, [], ◌∷◌, ◌++◌, Text, text, Result, ok, err, Outcome, done, fail,
  if◌then◌else◌, or_default, is_empty,
}
use rtc_tunnel.Net.{SocketAddr, Instant, from_millis}
use rtc_tunnel.Str.{trim}
use rtc_tunnel.Backend.Peer.{ChannelInit}
use rtc_tunnel.Refpeer.Args.{Codecs, arg_value, number_or}
use rtc_tunnel.Refpeer.Echo.{
  Engine, Line, Stop, Echoer, ready_line, answer_line, bad_address, io, engine, exit,
}

-- What the process finds: its arguments, what binding the socket gives, its standard input, and the
-- readings of the clock on the way.
pub record World : Type 0 where
  pub args : List Text
  pub bound : SocketAddr → Result Text SocketAddr
  pub input : Result Text Text
  pub build_at : Instant
  pub remote_at : Instant
  pub local_at : Instant

-- `?` on a call of the peer connection, with the lines printed so far.
abbrev pub or_stop :
    {A B : Type 0}
    → Result Text A
    → List Line
    → (A → Outcome Stop (List Line) B)
    → Outcome Stop (List Line) B
or_stop r printed k = elim r [ err e ↦ fail (engine e) printed | ok a ↦ k a ]

unfoldable pub channel_init : ChannelInit
channel_init = record { ordered = false; max_retransmits = some 0; negotiated = some 0 }

module _ (k : Codecs) (E : Engine) where
  open E.peer use {Connection, ChannelId}

  abbrev pub described : Result Text (Unit {0}) × Connection → Result Text Connection
  described (ok _, pc) = ok pc
  described (err e, pc) = err e

  -- The channel's id and the connection with both descriptions set, from the offer on.
  unfoldable pub negotiate :
      World
      → SocketAddr
      → Text
      → List Line
      → Connection
      → Outcome Stop (List Line) (ChannelId × Connection)
  negotiate w local_addr offer printed pc0 =
      or_stop (E.peer.offer_description offer) printed λ remote.
        or_stop (described (E.peer.set_remote_description w.remote_at remote pc0)) printed λ pc1.
          or_stop (E.peer.create_data_channel (text "relay") channel_init pc1) printed λ channel.
            or_stop (E.peer.new_candidate_host (E.peer.ip_to_string local_addr.ip) local_addr.port)
              printed
              λ candidate. or_stop (E.peer.add_local_candidate candidate channel.1) printed λ pc2.
                or_stop (E.peer.create_answer pc2) printed λ answer.
                  or_stop (E.peer.set_local_description w.local_at answer.0 answer.1) printed
                    λ pc3. done (channel.0, pc3) printed

  unfoldable pub ufrag_of : World → Text
  ufrag_of w = or_default (arg_value w.args (text "--ufrag")) (text "refufrag")

  unfoldable pub pwd_of : World → Text
  pwd_of w = or_default (arg_value w.args (text "--pwd")) (text "refpwdrefpwdrefpwdrefpwd")

  unfoldable pub lifetime_of : World → ℕ
  lifetime_of w =
      from_millis (number_or k.parse_u64 (arg_value w.args (text "--lifetime-ms")) 60_000)

  -- The process at the head of its loop, its answer printed.
  unfoldable pub answered :
      Outcome Stop (List Line) (ChannelId × Connection)
      → Outcome Stop (List Line) (ChannelId × Echoer E)
  answered (fail e printed) = fail e printed
  answered (done (handle, pc) printed) =
      let sdp = or_default (E.peer.local_description pc) [] in
      let lines = printed ++ answer_line (k.b64_encode (E.into_bytes sdp)) ∷ [] in
      done (handle, record { pc = pc; opened = false; echoes = 0; printed = lines; on_socket = [] })
        lines

  unfoldable pub given_offer :
      World → SocketAddr → Text → List Line → Outcome Stop (List Line) (ChannelId × Echoer E)
  given_offer w local_addr offer printed =
      if is_empty (trim offer)
      then fail (exit 2) printed
      else answered (
          or_stop (E.build_answering (ufrag_of w) (pwd_of w) w.build_at) printed
            (negotiate w local_addr offer printed))

  unfoldable pub listening : World → SocketAddr → Outcome Stop (List Line) (ChannelId × Echoer E)
  listening w local_addr =
      let ready = ready_line local_addr.port ∷ [] in
      elim w.input [ err e ↦ fail (io e) ready | ok offer ↦ given_offer w local_addr offer ready ]

  -- All that `main` does before its loop; its loop is `serve` on the address that was bound.
  unfoldable pub prepare : World → Outcome Stop (List Line) (SocketAddr × ChannelId × Echoer E)
  prepare w =
      elim (E.parse_socket_addr
        (or_default (arg_value w.args (text "--bind")) (text "127.0.0.1:0"))) [
          | none ↦ fail bad_address []
          | some bind ↦ elim (w.bound bind) [
            | err e ↦ fail (io e) []
            | ok local_addr ↦ elim (listening w local_addr) [
              | fail e printed ↦ fail e printed
              | done (handle, s) printed ↦ done (local_addr, handle, s) printed
            ]
          ]
        ]
