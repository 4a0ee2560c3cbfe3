-- ===== src/Refpeer/Echo/Whole.antt =====
-- crates/rtc-tunnel-refpeer/src/main.rs: the process from its start.
use rtc_tunnel.Base.{
  ℕ, ◌≡◌, refl, ap, ◌∙◌, subst, List, [], ◌∷◌, ◌++◌, Text, text, Result, ok, err, Outcome, done,
  fail, after, arith, flag, or_default, is_empty, if_holds, option_holds, result_holds,
}
use rtc_tunnel.Net.{SocketAddr}
use rtc_tunnel.Str.{trim}
use rtc_tunnel.Refpeer.Args.{Codecs, arg_value}
use rtc_tunnel.Refpeer.Numbered.{count_up}
use rtc_tunnel.Refpeer.Echo.{Engine, Line, ready_line, answer_line, Stop, Round, Echoer, serve}
use rtc_tunnel.Refpeer.Echo.Start.{
  described, World, or_stop, channel_init, negotiate, ufrag_of, pwd_of, answered, given_offer,
  listening, prepare,
}
use rtc_tunnel.Refpeer.Echo.Transcript.{Agrees, serve-Agrees}
use rtc_tunnel.Refpeer.Echo.Lines.{open_lines, numbers, open_lines-append, numbers-append}

-- Neither `OPEN` nor `ECHO` has been printed.
pub record IsPlain (ls : List Line) : Type 0 where
  pub unopened : open_lines ls ≡ 0
  pub unnumbered : numbers ls ≡ []

abbrev Quiet : {A : Type 0} → Outcome Stop (List Line) A → Type 0
Quiet (done a ls) = IsPlain ls
Quiet (fail e ls) = Unit {0}

or_stop-Quiet :
    {A B : Type 0} (r : Result Text A) (ls : List Line) (f : A → Outcome Stop (List Line) B)
    → ((a : A) → Quiet (f a))
    → Quiet (or_stop r ls f)
or_stop-Quiet (err e) ls f h = tt
or_stop-Quiet (ok a) ls f h = h a

module _ (k : Codecs) (E : Engine) where
  negotiate-Quiet :
      (w : World) (local_addr : SocketAddr) (offer : Text) (ls : List Line) (pc : E.peer.Connection)
      → IsPlain ls
      → Quiet (negotiate k E w local_addr offer ls pc)
  unfolding negotiate
  negotiate-Quiet w local_addr offer ls pc p =
      let Holds : Outcome Stop (List Line) (E.peer.ChannelId × E.peer.Connection) → Type 0 =
        Quiet in
      result_holds Holds (E.peer.offer_description offer) (λ _ _. tt)
        λ remote _.
          result_holds Holds (described k E (E.peer.set_remote_description w.remote_at remote pc))
            (λ _ _. tt)
            λ pc1 _.
              result_holds Holds (E.peer.create_data_channel (text "relay") channel_init pc1)
                (λ _ _. tt)
                λ channel _.
                  result_holds Holds
                    (E.peer.new_candidate_host (E.peer.ip_to_string local_addr.ip) local_addr.port)
                    (λ _ _. tt)
                    λ candidate _.
                      result_holds Holds (E.peer.add_local_candidate candidate channel.1)
                        (λ _ _. tt)
                        λ pc2 _.
                          result_holds Holds (E.peer.create_answer pc2) (λ _ _. tt)
                            λ answer _.
                              result_holds Holds
                                (E.peer.set_local_description w.local_at answer.0 answer.1)
                                (λ _ _. tt) (λ pc3 _. p)

  abbrev Ready : Outcome Stop (List Line) (E.peer.ChannelId × Echoer E) → Type 0
  Ready (done (handle, s) ls) = Agrees s
  Ready (fail e ls) = Unit {0}

  answered-Ready :
      (m : Outcome Stop (List Line) (E.peer.ChannelId × E.peer.Connection))
      → Quiet m
      → Ready (answered k E m)
  unfolding answered
  answered-Ready (fail e ls) p = tt
  answered-Ready (done (handle, pc) ls) p =
      let sdp = or_default (E.peer.local_description pc) [] in
      let l = answer_line (k.b64_encode (E.into_bytes sdp)) ∷ [] in
      record {
        opened_once = omega (arith, p.unopened, open_lines-append ls l);
        numbered = numbers-append ls l ∙ ap (λ ns. ns ++ []) p.unnumbered;
      }

  listening-Ready : (w : World) (local_addr : SocketAddr) → Ready (listening k E w local_addr)
  unfolding listening given_offer
  listening-Ready w local_addr =
      let ready = ready_line local_addr.port ∷ [] in
      result_holds Ready w.input (λ e _. tt)
        (λ offer _.
          if_holds Ready (is_empty (trim offer)) (λ _. tt)
            (λ _.
              answered-Ready
                (or_stop (E.build_answering (ufrag_of k E w) (pwd_of k E w) w.build_at) ready
                  (negotiate k E w local_addr offer ready))
                (or_stop-Quiet (E.build_answering (ufrag_of k E w) (pwd_of k E w) w.build_at) ready
                  (negotiate k E w local_addr offer ready)
                  (λ pc.
                    negotiate-Quiet w local_addr offer ready pc
                      (record { unopened = refl; unnumbered = refl })))))

  abbrev Begun : Outcome Stop (List Line) (SocketAddr × E.peer.ChannelId × Echoer E) → Type 0
  Begun (done (local_addr, handle, s) ls) = Agrees s
  Begun (fail e ls) = Unit {0}

  bound-Begun :
      (local_addr : SocketAddr) (m : Outcome Stop (List Line) (E.peer.ChannelId × Echoer E))
      → Ready m
      → Begun (elim m [
        | fail e printed ↦ fail e printed
        | done (handle, s) printed ↦ done (local_addr, handle, s) printed
      ])
  bound-Begun local_addr (fail e ls) h = tt
  bound-Begun local_addr (done (handle, s) ls) h = h

  prepare-Begun : (w : World) → Begun (prepare k E w)
  unfolding prepare
  prepare-Begun w =
      option_holds Begun
        (E.parse_socket_addr (or_default (arg_value w.args (text "--bind")) (text "127.0.0.1:0")))
        (λ _. tt)
        (λ bind _.
          result_holds Begun (w.bound bind) (λ e _. tt)
            (λ local_addr _.
              bound-Begun local_addr (listening k E w local_addr) (listening-Ready w local_addr)))

  -- Over any rounds of a reference peer that got to its loop, `OPEN` has been printed once if the
  -- channel has opened and not at all if it has not, however often the connection reports it, and
  -- the lines `ECHO` are numbered 1, 2, … up to the count of echoes.
  pub echo_transcript :
      (w : World) (local_addr : SocketAddr) (handle : E.peer.ChannelId) (s : Echoer E)
      (printed : List Line)
      → prepare k E w ≡ done (local_addr, handle, s) printed
      → (lifetime : ℕ) (rounds : List Round)
      → let u = after (serve E local_addr handle lifetime rounds s) in
        (open_lines u.printed ≡ flag u.opened) × (numbers u.printed ≡ count_up u.echoes)
  echo_transcript w local_addr handle s printed e lifetime rounds =
      let g =
        serve-Agrees E local_addr handle lifetime rounds s (subst Begun e (prepare-Begun w)) in
      (g.opened_once, g.numbered)
