-- ===== src/Bench/Connect.antt =====
-- crates/rtc-tunnel-core/examples/core-bench.rs: the two tunnels, from the exchange of their SDP.
use rtc_tunnel.Base.{false, Option, none, some, Text, text, ok, err, done, fail}
use rtc_tunnel.Net.{SocketAddr}
use rtc_tunnel.Platform.{Platform}
use rtc_tunnel.Direct.State.{DirectTunnel}
use rtc_tunnel.Direct.Output.{set_remote_ice_credentials}
use rtc_tunnel.Direct.Sdp.{offer_sdp, answer_sdp, apply_remote_answer_sdp}
use rtc_tunnel.Direct.Setup.{Surroundings, offer, answer}
use rtc_tunnel.Bench.{bench_config, answer_value, Pair}

module _ (P : Platform) where
  unfoldable pub with_values : Option Text → Option Text → DirectTunnel P → Option (DirectTunnel P)
  with_values none pwd t = none
  with_values (some ufrag) none t = none
  with_values (some ufrag) (some pwd) t = elim (set_remote_ice_credentials ufrag pwd t) [
    | fail e t' ↦ none
    | done _ t' ↦ some t'
  ]

  -- What the offerer takes from the answer's SDP.
  unfoldable pub apply_answer : Text → DirectTunnel P → Option (DirectTunnel P)
  apply_answer answer t =
      with_values (answer_value answer (text "a=ice-ufrag:"))
        (answer_value answer (text "a=ice-pwd:")) (apply_remote_answer_sdp answer t)

  unfoldable pub introduced : DirectTunnel P → DirectTunnel P → Option (Pair P)
  introduced o a = elim (answer_sdp a) [
    | none ↦ none
    | some answer ↦ elim (apply_answer answer o) [
      | none ↦ none
      | some o' ↦ some (record { offerer = o'; answerer = a; received = 0; moved = false })
    ]
  ]

  unfoldable pub answering :
      Surroundings → SocketAddr → SocketAddr → DirectTunnel P → Option (Pair P)
  answering env offerer_local answerer_local o = elim (offer_sdp o) [
    | none ↦ none
    | some sdp ↦ elim (answer P env (bench_config offerer_local) answerer_local sdp 0) [
      | err e ↦ none
      | ok a ↦ introduced o a
    ]
  ]

  unfoldable pub offering : Surroundings → Surroundings → SocketAddr → SocketAddr → Option (Pair P)
  offering env env' offerer_local answerer_local =
      elim (offer P env (bench_config answerer_local) offerer_local 0) [
        | err e ↦ none
        | ok o ↦ answering env' offerer_local answerer_local o
      ]

  -- The two tunnels as `main` wires them.
  unfoldable pub connect : Surroundings → Surroundings → Option (Pair P)
  connect env env' = elim (P.parse_socket_addr (text "127.0.0.1:41000")) [
    | none ↦ none
    | some offerer_local ↦ elim (P.parse_socket_addr (text "127.0.0.1:41001")) [
      | none ↦ none
      | some answerer_local ↦ offering env env' offerer_local answerer_local
    ]
  ]
