-- ===== src/Direct/Setup/Trust.antt =====
-- crates/rtc-tunnel-core/src/direct/mod.rs: whom the answerer of an offer trusts.
use rtc_tunnel.Base.{
  ℕ, ◌≡◌, ◌≢◌, ◌↔◌, refl, ◌∙◌, sym, ap, false, none, some, List, [], ◌∷◌, Bytes, Text, text, ok,
  Result, ltb, is_empty, if-true, if-false, Bool-cases, inl, inr, differ,
}
use rtc_tunnel.Net.{SocketAddr, is_ipv4}
use rtc_tunnel.Config.{TunnelConfig}
use rtc_tunnel.Str.{hex_join}
use rtc_tunnel.Str.Words.{AreBytes}
use rtc_tunnel.Platform.{Platform, VerifyError, require_any_client_cert}
use rtc_tunnel.Direct.State.{DirectTunnel, answerer}
use rtc_tunnel.Direct.Sdp.{ParsedOffer, parse, render_sdp, offer_sdp}
use rtc_tunnel.Direct.Sdp.Offer.{Readable, parse-render_sdp}
use rtc_tunnel.Direct.Verify.{verify_peer}
use rtc_tunnel.Direct.Verify.Match.{verify_peer_iff}
use rtc_tunnel.Direct.Setup.{
  Surroundings, with_offer, begin, answer, answer_to, and_then, verifier, dtls_options,
}
use rtc_tunnel.Direct.Setup.Configured.{Configured, begin-Configured}
use rtc_tunnel.Direct.Setup.Fresh.{Fresh, begin-Fresh}

filled : (s : Text) → s ≢ [] → is_empty s ≡ false
filled [] n = absurd (n refl)
filled (_ ∷ _) n = refl

offered_fingerprint :
    (c : TunnelConfig) (p : ParsedOffer)
    → p.fingerprint ≢ []
    → (with_offer p c).remote_fingerprint ≡ p.fingerprint
unfolding with_offer
offered_fingerprint c p n = if-false c.remote_fingerprint p.fingerprint (filled p.fingerprint n)

verifier-some :
    {P : Platform} (a : DirectTunnel P) (f : Text)
    → a.disable_fingerprint_verification ≡ false
    → P.to_lowercase a.remote_fingerprint ≡ f
    → a.fingerprint_algorithm ≡ text "sha-256"
    → verifier a ≡ some (verify_peer P f (text "sha-256"))
unfolding verifier
verifier-some {P} a f on low named =
    if-false none
      (some (verify_peer P (P.to_lowercase a.remote_fingerprint) a.fingerprint_algorithm)) on
    ∙ ap (λ x. some (verify_peer P x a.fingerprint_algorithm)) low
    ∙ ap (λ x. some (verify_peer P f x)) named

module _ {P : Platform} (env : Surroundings) (c : TunnelConfig) (local_addr : SocketAddr)
    (now_ms : ℕ) where
  answer_to-begin :
      (p : ParsedOffer) (a : DirectTunnel P)
      → answer_to P env p c local_addr now_ms ≡ ok a
      → begin P env answerer (with_offer p c) local_addr now_ms ≡ ok a
  unfolding answer_to
  answer_to-begin p a e = elim (Bool-cases (differ (is_ipv4 p.remote) (is_ipv4 local_addr))) [
    | inl d ↦ absurd (cc (sym (if-true _ _ d) ∙ e))
    | inr d ↦ sym (if-false _ _ d) ∙ e
  ]

  -- An answer that is given comes from an offer that was parsed.
  answer-begin :
      (p : ParsedOffer) (sdp : Text) (a : DirectTunnel P)
      → parse P sdp ≡ ok p
      → answer P env c local_addr sdp now_ms ≡ ok a
      → begin P env answerer (with_offer p c) local_addr now_ms ≡ ok a
  unfolding answer answer_to
  answer-begin p sdp a parsed e = elim (Bool-cases (ltb 65534 c.stream_id)) [
    | inl d ↦ absurd (cc (sym (if-true _ _ d) ∙ e))
    | inr d ↦ answer_to-begin p a (
        sym (ap (λ r. and_then r (λ o. answer_to P env o c local_addr now_ms)) parsed)
        ∙ sym (if-false _ _ d)
        ∙ e)
  ]

module _ {P : Platform} (env : Surroundings) (c : TunnelConfig) (local_addr : SocketAddr)
    (now_ms : ℕ) (o : DirectTunnel P) (remote : SocketAddr) (sdp : Text) (a : DirectTunnel P)
    (r : Readable (text "actpass") o remote) (offered : offer_sdp o ≡ some sdp)
    (answered : answer P env c local_addr sdp now_ms ≡ ok a) where
  -- What the answerer reads of the offerer.
  abbrev read : ParsedOffer
  read = record {
    ufrag = (P.local_credentials o.ice).ufrag;
    pwd = (P.local_credentials o.ice).pwd;
    remote = remote;
    fingerprint = P.to_lowercase o.local_fingerprint;
  }

  parsed : parse P sdp ≡ ok read
  unfolding offer_sdp
  parsed =
      let same : render_sdp (text "actpass") o ≡ sdp = cc (offered) in
      ap (parse P) (sym same) ∙ parse-render_sdp (text "actpass") o remote r

  endpoint : Configured answerer a
  endpoint =
      begin-Configured P env answerer (with_offer read c) local_addr now_ms a
        (answer-begin env c local_addr now_ms read sdp a parsed answered)

  fresh : Fresh (with_offer read c) now_ms a
  fresh =
      begin-Fresh env (with_offer read c) local_addr now_ms answerer a
        (answer-begin env c local_addr now_ms read sdp a parsed answered)

  -- An answerer that verifies fingerprints by SHA-256 sends to the address of the offerer's candidate,
  -- and serves DTLS by a configuration that was built from its options, over a certificate: these
  -- options require a certificate of the client and run a check, which accepts a certificate exactly
  -- if its SHA-256 is the hash that the offerer's own fingerprint spells. All this from the SDP text
  -- alone, where the offer's words are without white space, a spelled hash is in lower case and
  -- SHA-256 yields bytes.
  pub answer-trusts :
      (hash cert : Bytes) (chain : List Bytes)
      → c.disable_fingerprint_verification ≡ false
      → c.fingerprint_algorithm ≡ text "sha-256"
      → o.local_fingerprint ≡ hex_join hash
      → AreBytes hash
      → P.to_lowercase (hex_join hash) ≡ hex_join hash
      → ((h : Bytes) → P.sha256 cert ≡ ok h → AreBytes h)
      → (a.remote_addr ≡ remote)
        × ((certificate : List Bytes) × (config : P.DtlsConfig) × (check : List Bytes
              → Result VerifyError (Unit {0}))
            × (P.build_dtls_config (dtls_options certificate a) false remote ≡ ok config)
            × (a.dtls ≡ P.set_server_config config P.new_dtls)
            × ((dtls_options certificate a).client_auth ≡ require_any_client_cert)
            × ((dtls_options certificate a).verify_peer_certificate ≡ some check)
            × ((check (cert ∷ chain) ≡ ok tt) ↔ (P.sha256 cert ≡ ok hash)))
  answer-trusts hash cert chain verified named spelled bytes lower law =
      let low : P.to_lowercase o.local_fingerprint ≡ hex_join hash =
        ap P.to_lowercase spelled ∙ lower in
      let expected : a.remote_fingerprint ≡ hex_join hash =
        fresh.fingerprint
        ∙ offered_fingerprint c read (λ e. r.fingerprint_filled (spelled ∙ sym low ∙ e))
        ∙ low in
      let to : a.remote_addr ≡ remote = fresh.remote ∙ (unfold with_offer in refl) in
      let d = endpoint in
      (
        to,
        (
          d.certificate,
          d.config,
          verify_peer P (hex_join hash) (text "sha-256"),
          ap (λ x. P.build_dtls_config (dtls_options d.certificate a) false x) (sym to) ∙ d.options,
          d.served,
          (unfold dtls_options in refl),
          unfold dtls_options in
              verifier-some a (hex_join hash) (fresh.unverified ∙ (unfold with_offer in verified))
                (ap P.to_lowercase expected ∙ lower)
                (fresh.algorithm ∙ (unfold with_offer in named)),
          verify_peer_iff P hash cert chain bytes law,
        ),
      )
