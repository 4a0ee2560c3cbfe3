-- ===== src/Bench/Exchange.antt =====
-- crates/rtc-tunnel-core/examples/core-bench.rs: the exchange of SDP that introduces the two tunnels to
-- each other.
use rtc_tunnel.Base.{false, ◌≡◌, refl, ap, ◌∙◌, Option, none, some, Text, text, ok, arith}
use rtc_tunnel.Net.{SocketAddr}
use rtc_tunnel.Str.{strip_prefix}
use rtc_tunnel.Platform.{Platform}
use rtc_tunnel.Direct.State.{DirectTunnel, answerer, with_ice}
use rtc_tunnel.Direct.Output.{set_remote_ice_credentials}
use rtc_tunnel.Direct.Sdp.{family_of, sdp_lines, render_sdp, answer_sdp, apply_remote_answer_sdp}
use rtc_tunnel.Direct.Sdp.Attributes.{lines-join_lines}
use rtc_tunnel.Direct.Sdp.Offer.{Readable, sdp_lines-AreLines}
use rtc_tunnel.Direct.Sdp.Reading.{render_sdp-fingerprint}
use rtc_tunnel.Direct.Setup.{answer}
use rtc_tunnel.Bench.{first_value, answer_value, Pair}
use rtc_tunnel.Bench.Connect.{with_values, apply_answer, introduced}

module _ {P : Platform} (setup : Text) (a : DirectTunnel P) (remote : SocketAddr)
    (r : Readable setup a remote) where
  answer_value-ufrag :
      answer_value (render_sdp setup a) (text "a=ice-ufrag:")
      ≡ some (P.local_credentials a.ice).ufrag
  unfolding answer_value render_sdp
  answer_value-ufrag =
      ap (first_value (text "a=ice-ufrag:"))
        (lines-join_lines (sdp_lines setup a) (sdp_lines-AreLines setup a remote r))
      ∙ (unfold first_value sdp_lines family_of strip_prefix text in refl)

  answer_value-pwd :
      answer_value (render_sdp setup a) (text "a=ice-pwd:") ≡ some (P.local_credentials a.ice).pwd
  unfolding answer_value render_sdp
  answer_value-pwd =
      ap (first_value (text "a=ice-pwd:"))
        (lines-join_lines (sdp_lines setup a) (sdp_lines-AreLines setup a remote r))
      ∙ (unfold first_value sdp_lines family_of strip_prefix text in refl)

module _ {P : Platform} where
  with_values-taken :
      (ufrag pwd : Text) (t : DirectTunnel P) (agent : P.Agent)
      → P.set_remote_credentials ufrag pwd t.ice ≡ ok agent
      → with_values P (some ufrag) (some pwd) t ≡ some (record t { ice = agent })
  unfolding with_values set_remote_ice_credentials with_ice
  with_values-taken ufrag pwd t agent e = ground arith

  answerer-sdp :
      (a : DirectTunnel P) → a.role ≡ answerer → answer_sdp a ≡ some (render_sdp (text "passive") a)
  unfolding answer_sdp
  answerer-sdp a e = ground arith

  -- `introduced` on its two results.
  abbrev joined : DirectTunnel P → Option (DirectTunnel P) → Option (Pair P)
  joined a found = elim found [
    | none ↦ none
    | some o' ↦ some (record { offerer = o'; answerer = a; received = 0; moved = false })
  ]

  abbrev introduced_by : DirectTunnel P → DirectTunnel P → Option Text → Option (Pair P)
  introduced_by o a sdp = elim sdp [
    | none ↦ none
    | some answer ↦ joined a (apply_answer P answer o)
  ]

module _ {P : Platform} (o a : DirectTunnel P) (remote : SocketAddr)
    (r : Readable (text "passive") a remote) where
  -- Where the agent takes the credentials, an offerer that is given an answerer's answer, by the SDP
  -- text alone, has the answerer's own ICE credentials in its agent and the answerer's own
  -- fingerprint, in lower case, in its field `remote_fingerprint`. Every other field of the offerer,
  -- its DTLS endpoint and configuration included, and the answerer are left as they are.
  pub introduced-offerer :
      (agent : P.Agent)
      → a.role ≡ answerer
      → P.set_remote_credentials
          (P.local_credentials a.ice).ufrag
          (P.local_credentials a.ice).pwd
          o.ice
        ≡ ok agent
      → introduced P o a
        ≡ some (record {
          offerer = record o {
            ice = agent;
            remote_fingerprint = P.to_lowercase a.local_fingerprint;
          };
          answerer = a;
          received = 0;
          moved = false;
        })
  unfolding introduced apply_answer apply_remote_answer_sdp
  introduced-offerer agent role taken =
      let sdp = render_sdp (text "passive") a in
      let creds = P.local_credentials a.ice in
      let told = record o { remote_fingerprint = P.to_lowercase a.local_fingerprint } in
      let applied : apply_remote_answer_sdp sdp o ≡ told =
        ap
          (λ (f : Option Text). elim f [
            | none ↦ o
            | some fingerprint ↦ record o { remote_fingerprint = fingerprint }
          ])
          (render_sdp-fingerprint (text "passive") a r.algorithm_word r.fingerprint_word
            r.fingerprint_filled) in
      let wired : apply_answer P sdp o ≡ some (record told { ice = agent }) =
        ap
          (λ v.
            with_values P v (answer_value sdp (text "a=ice-pwd:")) (apply_remote_answer_sdp sdp o))
          (answer_value-ufrag (text "passive") a remote r)
        ∙ ap (λ v. with_values P (some creds.ufrag) v (apply_remote_answer_sdp sdp o))
            (answer_value-pwd (text "passive") a remote r)
        ∙ ap (with_values P (some creds.ufrag) (some creds.pwd)) applied
        ∙ with_values-taken creds.ufrag creds.pwd told agent taken in
      ap (introduced_by o a) (answerer-sdp a role) ∙ ap (joined a) wired
