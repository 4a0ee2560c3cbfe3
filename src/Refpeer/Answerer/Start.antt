-- ===== src/Refpeer/Answerer/Start.antt =====
-- crates/rtc-tunnel-refpeer/src/answerer.rs: all that the process does before its loop.
use rtc_tunnel.Base.{
  ℕ, true, none, some, List, [], ◌∷◌, ◌++◌, Text, text, Result, ok, err, Outcome, done, fail,
  or_default,
}
use rtc_tunnel.Net.{SocketAddr, from_millis}
use rtc_tunnel.Config.{TunnelConfig}
use rtc_tunnel.Config
use rtc_tunnel.Str.{trim, strip_prefix}
use rtc_tunnel.Platform.{Platform}
use rtc_tunnel.Direct.State.{DirectTunnel}
use rtc_tunnel.Direct.Sdp.{answer_sdp}
use rtc_tunnel.Direct.Setup.{Surroundings, answer}
use rtc_tunnel.Refpeer.Args.{Codecs, arg_value, number_or}
use rtc_tunnel.Refpeer.Answerer.{
  Line, Failure, candidate_address, Answerer, port_line, answer_line, bad_address, io, bad_base64,
  bad_utf8, missing, refused,
}

-- The process's surroundings: its arguments, what binding the socket gives, the lines of standard
-- input, and what the constructor of the tunnel takes of its own.
pub record World : Type 0 where
  pub args : List Text
  pub bound : SocketAddr → Result Text SocketAddr
  pub input : List (Result Text Text)
  pub around : Surroundings

module _ (k : Codecs) (P : Platform) where
  unfoldable pub decoded : Text → Result Failure Text
  decoded encoded = elim (k.b64_decode (trim encoded)) [
    | err e ↦ err (bad_base64 e)
    | ok bytes ↦ elim (P.from_utf8 bytes) [ none ↦ err bad_utf8 | some sdp ↦ ok sdp ]
  ]

  unfoldable pub read_offer : List (Result Text Text) → Result Failure Text
  read_offer [] = err (missing (text "no OFFER line received"))
  read_offer (err e ∷ rest) = err (io e)
  read_offer (ok line ∷ rest) =
      let later = read_offer rest in
      elim (strip_prefix (text "OFFER ") line) [ none ↦ later | some encoded ↦ decoded encoded ]

  unfoldable pub answerer_config : ℕ → SocketAddr → TunnelConfig
  answerer_config stream_id peer = record (Config.new peer [] [] []) {
    stream_id = stream_id;
    disable_fingerprint_verification = true;
  }

  -- `PORT` and `ANSWER`, in that order; the second fails where the tunnel has no answer.
  unfoldable pub announce :
      SocketAddr → DirectTunnel P → Outcome Failure (List Line) (DirectTunnel P)
  announce local_addr t =
      let ports = port_line local_addr.port ∷ [] in
      elim (answer_sdp t) [
        | none ↦ fail (missing (text "tunnel did not produce an answer")) ports
        | some sdp ↦ done t (ports ++ answer_line (k.b64_encode (P.into_bytes sdp)) ∷ [])
      ]

  unfoldable pub answered : World → SocketAddr → Text → Outcome Failure (List Line) (DirectTunnel P)
  answered w local_addr sdp = elim (candidate_address P sdp) [
    | none ↦ fail (missing (text "offer carried no usable candidate")) []
    | some peer ↦
        let stream_id = number_or k.parse_u16 (arg_value w.args (text "--stream-id")) 0 in
        elim (answer P w.around (answerer_config stream_id peer) local_addr sdp 0) [
          | err e ↦ fail (refused e) []
          | ok t ↦ announce local_addr t
        ]
  ]

  -- All that `main` does before its loop.
  unfoldable pub prepare : World → Outcome Failure (List Line) (DirectTunnel P)
  prepare w =
      elim (P.parse_socket_addr
        (or_default (arg_value w.args (text "--bind")) (text "127.0.0.1:0"))) [
          | none ↦ fail bad_address []
          | some bind ↦ elim (w.bound bind) [
            | err e ↦ fail (io e) []
            | ok local_addr ↦ elim (read_offer w.input) [
              | err e ↦ fail e []
              | ok sdp ↦ answered w local_addr sdp
            ]
          ]
        ]

  unfoldable pub lifetime_of : World → ℕ
  lifetime_of w =
      from_millis (number_or k.parse_u64 (arg_value w.args (text "--lifetime-ms")) 60_000)

  -- The process at the head of its loop.
  unfoldable pub begun : DirectTunnel P → List Line → Answerer P
  begun t printed = record {
    tunnel = t;
    echoes = 0;
    printed = printed;
    on_socket = [];
    outgoing = [];
    terminal = none;
  }
