-- ===== src/Refpeer/Answerer/Whole.antt =====
-- crates/rtc-tunnel-refpeer/src/answerer.rs: the process from its start.
use rtc_tunnel.Base.{
  ℕ, ◌+◌, ◌≡◌, refl, ap, subst, false, List, [], Text, text, Outcome, done, fail, after, arith,
  flag, or_default, option_holds, result_holds,
}
use rtc_tunnel.Net.{SocketAddr}
use rtc_tunnel.Event.Count.{opens, closes}
use rtc_tunnel.Platform.{Platform}
use rtc_tunnel.Direct.State.{DirectTunnel, answerer}
use rtc_tunnel.Direct.Sdp.{answer_sdp}
use rtc_tunnel.Direct.Setup.{answer, with_offer}
use rtc_tunnel.Direct.Setup.Fresh.{begin-Fresh}
use rtc_tunnel.Direct.Setup.Checks.{answer-offer}
use rtc_tunnel.Refpeer.Args.{Codecs, arg_value, number_or}
use rtc_tunnel.Refpeer.Numbered.{count_up}
use rtc_tunnel.Refpeer.Answerer.{Line, Failure, Round, serve, candidate_address}
use rtc_tunnel.Refpeer.Answerer.Start.{
  World, read_offer, answerer_config, announce, answered, prepare, begun,
}
use rtc_tunnel.Refpeer.Answerer.Transcript.{Agrees, serve-Settled}
use rtc_tunnel.Refpeer.Answerer.Lines.{open_lines, closed_lines, numbers}

module _ (k : Codecs) (P : Platform) where
  -- A process that gets to its loop has nothing to announce yet.
  abbrev Ready : Outcome Failure (List Line) (DirectTunnel P) → Type 0
  Ready (done t printed) = Agrees 0 (begun k P t printed)
  Ready (fail e printed) = Unit {0}

  announce-Ready :
      (local_addr : SocketAddr) (t : DirectTunnel P)
      → t.opened ≡ false
      → t.finished ≡ false
      → t.events ≡ []
      → Ready (announce k P local_addr t)
  unfolding announce begun
  announce-Ready local_addr t o f e =
      option_holds Ready (answer_sdp t) (λ _. tt)
        (λ sdp _. record {
          opened_once = omega (arith, ap opens e, ap flag o);
          closed_once = omega (arith, ap closes e, ap flag f);
          numbered = refl;
        })

  answered-Ready :
      (w : World) (local_addr : SocketAddr) (sdp : Text) → Ready (answered k P w local_addr sdp)
  unfolding answered
  answered-Ready w local_addr sdp =
      option_holds Ready (candidate_address P sdp) (λ _. tt)
        (λ peer _.
          let id = number_or k.parse_u16 (arg_value w.args (text "--stream-id")) 0 in
          let c = answerer_config k P id peer in
          result_holds Ready (answer P w.around c local_addr sdp 0) (λ e _. tt)
            (λ t h.
              let built = (answer-offer P w.around c local_addr 0 sdp t h).1 in
              let f = begin-Fresh w.around (with_offer built.0 c) local_addr 0 answerer t built.3 in
              announce-Ready local_addr t f.opened f.finished f.events))

  prepare-Ready : (w : World) → Ready (prepare k P w)
  unfolding prepare
  prepare-Ready w =
      option_holds Ready
        (P.parse_socket_addr (or_default (arg_value w.args (text "--bind")) (text "127.0.0.1:0")))
        (λ _. tt)
        (λ bind _.
          result_holds Ready (w.bound bind) (λ e _. tt)
            (λ local_addr _.
              result_holds Ready (read_offer k P w.input) (λ e _. tt)
                (λ sdp _. answered-Ready w local_addr sdp)))

  -- Over any rounds of a process that got to its loop, `OPEN` has been printed once exactly if the
  -- tunnel has opened and its announcement has been taken, never twice; `CLOSED` likewise for its
  -- end; and the lines `MSG` are numbered 1, 2, … up to the count of echoes.
  pub answerer_transcript :
      (w : World) (t : DirectTunnel P) (printed : List Line)
      → prepare k P w ≡ done t printed
      → (fuel lifetime : ℕ) (rounds : List Round)
      → let a = after (serve k fuel lifetime rounds (begun k P t printed)) in
        (open_lines a.printed + opens a.tunnel.events ≡ flag a.tunnel.opened)
        × (closed_lines a.printed + closes a.tunnel.events ≡ flag a.tunnel.finished)
        × (numbers a.printed ≡ count_up a.echoes)
  answerer_transcript w t printed e fuel lifetime rounds =
      let g =
        serve-Settled k fuel lifetime rounds (begun k P t printed)
          (subst Ready e (prepare-Ready w)) in
      (g.opened_once, omega (arith, g.closed_once), g.numbered)
