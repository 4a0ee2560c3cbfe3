-- ===== src/Tests/Trust.antt =====
-- An answerer built from the SDP of an offerer.
use rtc_tunnel.Base.{
  ◌≡◌, ◌↔◌, refl, ◌∙◌, ap, subst, some, List, [], ◌∷◌, Bytes, Text, text, Result, ok, arith, false,
}
use rtc_tunnel.Net.{is_ipv4}
use rtc_tunnel.Trace
use rtc_tunnel.Str.{is_whitespace, hex_join}
use rtc_tunnel.Str.Words.{IsWord, AreBytes}
use rtc_tunnel.Str.Fields.{spaced}
use rtc_tunnel.Platform.{VerifyError, require_any_client_cert}
use rtc_tunnel.Direct.State.{DirectTunnel, answerer, with_ice}
use rtc_tunnel.Direct.Verify.{fingerprint_of, hex_of}
use rtc_tunnel.Direct.Sdp.{render_sdp, parse_candidate_addr, offer_sdp}
use rtc_tunnel.Direct.Sdp.Offer.{Readable, parse-render_sdp}
use rtc_tunnel.Direct.Setup.{
  answer, answer_to, and_then, with_offer, begin, build, with_provider, with_agent, equip,
  prepare_dtls, prepared, fingerprinted, configured, add_candidates, add_candidate, with_candidate,
  set_credentials, start_checks, initial, epoch_of, dtls_options,
}
use rtc_tunnel.Direct.Setup.Trust.{answer-trusts}
use rtc_tunnel.Tests.Toy.{toy, toy_addr, toy_agent}
use rtc_tunnel.Tests.Core.{tunnel, around, settings}
use rtc_tunnel.Tests.Peer.{
  digest, digest-AreBytes, sha256-IsWord, fingerprint-IsWord, fingerprint-filled,
}
use rtc_tunnel.Tests.Wiring.{fields, fields-AreWords, us-IsWord, secret-IsWord}

actpass-IsWord : IsWord (text "actpass")
unfolding text is_whitespace
actpass-IsWord = ground arith

candidate-spelled : toy.first_local_candidate tunnel.ice ≡ some (spaced fields)
unfolding text spaced
candidate-spelled = refl

tunnel-Readable : Readable (text "actpass") tunnel toy_addr
unfolding parse_candidate_addr
tunnel-Readable = record {
  foundation = text "1";
  protocol = text "udp";
  priority = text "1";
  address = text "127.0.0.1";
  port = text "4000";
  more = [];
  setup_word = actpass-IsWord;
  algorithm_word = sha256-IsWord;
  fingerprint_word = fingerprint-IsWord;
  fingerprint_filled = fingerprint-filled;
  ufrag_word = us-IsWord;
  pwd_word = secret-IsWord;
  fields_words = fields-AreWords;
  spelled = candidate-spelled;
  resolved = refl;
}

-- What the constructor returns for it.
abbrev answering : DirectTunnel toy
answering = record tunnel {
  role = answerer;
  ice = record toy_agent { credentials = some (record { ufrag = text "us"; pwd = text "secret" }) };
}

abbrev sdp : Text
sdp = render_sdp (text "actpass") tunnel

offered : offer_sdp tunnel ≡ some sdp
unfolding offer_sdp
offered = refl

answered : answer toy around settings toy_addr sdp 100 ≡ ok answering
unfolding answer answer_to with_offer begin build with_provider with_agent equip prepare_dtls
    prepared fingerprinted fingerprint_of hex_of hex_join configured add_candidates add_candidate
    with_candidate with_ice set_credentials start_checks initial epoch_of Trace.new text is_ipv4
answered =
    ap (λ r. and_then r (λ o. answer_to toy around o settings toy_addr 100))
      (parse-render_sdp (text "actpass") tunnel toy_addr tunnel-Readable)
    ∙ refl

spelled : tunnel.local_fingerprint ≡ hex_join digest
unfolding text hex_join
spelled = refl

answer-trusts_example :
    (answering.remote_addr ≡ toy_addr)
    × ((certificate : List Bytes) × (config : toy.DtlsConfig) × (check : List Bytes
          → Result VerifyError (Unit {0}))
        × (toy.build_dtls_config (dtls_options certificate answering) false toy_addr ≡ ok config)
        × (answering.dtls ≡ toy.set_server_config config toy.new_dtls)
        × ((dtls_options certificate answering).client_auth ≡ require_any_client_cert)
        × ((dtls_options certificate answering).verify_peer_certificate ≡ some check)
        × ((check (digest ∷ []) ≡ ok tt) ↔ (toy.sha256 digest ≡ ok digest)))
answer-trusts_example =
    answer-trusts around settings toy_addr 100 tunnel toy_addr sdp answering tunnel-Readable offered
      answered digest digest [] refl refl spelled digest-AreBytes refl
      (λ h e. let same : digest ≡ h = cc in subst AreBytes same digest-AreBytes)
