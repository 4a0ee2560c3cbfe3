-- ===== src/Direct/Sdp/Offer.antt =====
-- crates/rtc-tunnel-core/src/direct/mod.rs: what `ParsedOffer::parse` reads out of the SDP that a
-- tunnel writes.
use rtc_tunnel.Base.{
  ◌&◌, ◌≡◌, ◌≢◌, refl, ◌∙◌, ap, sym, subst, Bool, true, false, none, some, List, [], ◌∷◌, ◌++◌,
  Text, text, ok, drop, arith, or_default,
}
use rtc_tunnel.Net.{SocketAddr, is_ipv4}
use rtc_tunnel.Event.{max_message_size}
use rtc_tunnel.Str.{trim, show_nat, text_eq}
use rtc_tunnel.Str.Words.{IsWord, IsLine, IsLine-append, is_line, is_line-IsLine}
use rtc_tunnel.Str.Fields.{spaced, AreWords, spaced-IsLine, show_nat-IsWord}
use rtc_tunnel.Platform.{Platform}
use rtc_tunnel.Direct.State.{DirectTunnel}
use rtc_tunnel.Direct.Sdp.{
  Found, nothing_found, or_keep, parse_candidate_addr, candidate_fields, read_line, read_lines,
  complete, parse, family_of, sdp_lines, render_sdp,
}
use rtc_tunnel.Direct.Sdp.Reading.{
  family, fingerprint_line, fingerprint_line-IsLine, origin, origin-is_line,
}
use rtc_tunnel.Direct.Sdp.Attributes.{
  AreLines, lines-join_lines, attribute-IsLine, read_lines-cons, ufrag_line, pwd_line,
  filled_fingerprint, candidate_line, skip_line, skip_attribute,
}

-- The line of the connection's address.
abbrev connection : Bool → Text
connection ipv4 =
    let (name, unspecified) = family ipv4 in text "c=IN " ++ (name ++ (32 ∷ unspecified))

connection-is_line : (b : Bool) → is_line (connection b) ≡ true
unfolding text is_line
connection-is_line true = refl
connection-is_line false = refl

module _ {P : Platform} where
  -- What the tunnel needs of the agent and of its own texts, for its SDP to be read: words without
  -- white space, and a host candidate of component 1 as the agent spells it.
  pub record Readable (setup : Text) (t : DirectTunnel P) (remote : SocketAddr) : Type 0 where
    pub foundation : Text
    pub protocol : Text
    pub priority : Text
    pub address : Text
    pub port : Text
    pub more : List Text
    pub setup_word : IsWord setup
    pub algorithm_word : IsWord t.fingerprint_algorithm
    pub fingerprint_word : IsWord t.local_fingerprint
    pub fingerprint_filled : t.local_fingerprint ≢ []
    pub ufrag_word : IsWord (P.local_credentials t.ice).ufrag
    pub pwd_word : IsWord (P.local_credentials t.ice).pwd
    pub fields_words : AreWords (
        foundation
        ∷ text "1"
        ∷ protocol
        ∷ priority
        ∷ address
        ∷ port
        ∷ text "typ"
        ∷ text "host"
        ∷ more)
    pub spelled :
        P.first_local_candidate t.ice
        ≡ some (
            spaced (
              foundation
              ∷ text "1"
              ∷ protocol
              ∷ priority
              ∷ address
              ∷ port
              ∷ text "typ"
              ∷ text "host"
              ∷ more))
    pub resolved : parse_candidate_addr P address port ≡ some remote

  module _ (setup : Text) (t : DirectTunnel P) (remote : SocketAddr)
      (r : Readable setup t remote) where
    candidate-eq :
        or_default (P.first_local_candidate t.ice) []
        ≡ spaced (
            r.foundation
            ∷ text "1"
            ∷ r.protocol
            ∷ r.priority
            ∷ r.address
            ∷ r.port
            ∷ text "typ"
            ∷ text "host"
            ∷ r.more)
    candidate-eq = ap (λ o. or_default o []) r.spelled

    -- What has been found before the candidate's line.
    abbrev before : Found
    before = record {
      ufrag = some (P.local_credentials t.ice).ufrag;
      pwd = some (P.local_credentials t.ice).pwd;
      remote = none;
      fingerprint = some (P.to_lowercase t.local_fingerprint);
    }

    candidate-read :
        read_line P
          (trim (text "a=candidate:" ++ or_default (P.first_local_candidate t.ice) []))
          before
        ≡ record before { remote = some remote }
    unfolding candidate_fields text_eq text
    candidate-read =
        ap (λ c. read_line P (trim (text "a=candidate:" ++ c)) before) candidate-eq
        ∙ candidate_line P r.foundation _ before r.fields_words
        ∙ ap (λ o. record before { remote = or_keep o none }) r.resolved

    read_lines-sdp_lines :
        read_lines P (sdp_lines setup t) nothing_found ≡ record before { remote = some remote }
    unfolding sdp_lines family_of text
    read_lines-sdp_lines =
        let ipv4 = is_ipv4 t.local_addr in
        let creds = P.local_credentials t.ice in
        skip_line P 118 (drop 1 (text "v=0")) _ nothing_found (omega arith) (omega arith)
        ∙ skip_line P 111 (drop 1 (origin ipv4)) _ nothing_found (omega arith) (omega arith)
        ∙ skip_line P 115 (drop 1 (text "s=-")) _ nothing_found (omega arith) (omega arith)
        ∙ skip_line P 116 (drop 1 (text "t=0 0")) _ nothing_found (omega arith) (omega arith)
        ∙ read_lines-cons P (fingerprint_line t.fingerprint_algorithm t.local_fingerprint) _ _ _ (
            filled_fingerprint P t.fingerprint_algorithm t.local_fingerprint nothing_found
              r.algorithm_word r.fingerprint_word r.fingerprint_filled)
        ∙ skip_attribute P 103 (drop 3 (text "a=group:BUNDLE 0")) _ _ (omega arith) (omega arith)
            refl
        ∙ skip_line P 109 (drop 1 (text "m=application 9 UDP/DTLS/SCTP webrtc-datachannel")) _ _
            (omega arith) (omega arith)
        ∙ skip_line P 99 (drop 1 (connection ipv4)) _ _ (omega arith) (omega arith)
        ∙ skip_attribute P 115 (drop 3 (text "a=setup:") ++ setup) _ _ (omega arith) (omega arith)
            refl
        ∙ skip_attribute P 109 (drop 3 (text "a=mid:0")) _ _ (omega arith) (omega arith) refl
        ∙ skip_attribute P 115 (drop 3 (text "a=sctp-port:") ++ show_nat t.sctp_port) _ _
            (omega arith) (omega arith) refl
        ∙ skip_attribute P 109 (drop 3 (text "a=max-message-size:") ++ show_nat max_message_size) _
            _ (omega arith) (omega arith) refl
        ∙ read_lines-cons P (text "a=ice-ufrag:" ++ creds.ufrag) _ _ _
            (ufrag_line P creds.ufrag _ r.ufrag_word)
        ∙ read_lines-cons P (text "a=ice-pwd:" ++ creds.pwd) _ _ before
            (pwd_line P creds.pwd _ r.pwd_word)
        ∙ read_lines-cons P (text "a=candidate:" ++ or_default (P.first_local_candidate t.ice) [])
            [] before (record before { remote = some remote }) candidate-read
        ∙ unfold read_lines in refl

    pub sdp_lines-AreLines : AreLines (sdp_lines setup t)
    unfolding sdp_lines family_of is_line text
    sdp_lines-AreLines =
        let ipv4 = is_ipv4 t.local_addr in
        let fixed : (l : Text) → is_line l ≡ true → IsLine l = is_line-IsLine in
        let named : (name w : Text) → is_line name ≡ true → IsWord w → IsLine (name ++ w) =
          attribute-IsLine in
        fixed (text "v=0") refl
        & fixed (origin ipv4) (origin-is_line ipv4)
        & fixed (text "s=-") refl
        & fixed (text "t=0 0") refl
        & fingerprint_line-IsLine t.fingerprint_algorithm t.local_fingerprint r.algorithm_word
            r.fingerprint_word
        & fixed (text "a=group:BUNDLE 0") refl
        & fixed (text "m=application 9 UDP/DTLS/SCTP webrtc-datachannel") refl
        & fixed (connection ipv4) (connection-is_line ipv4)
        & named (text "a=setup:") setup refl r.setup_word
        & fixed (text "a=mid:0") refl
        & named (text "a=sctp-port:") (show_nat t.sctp_port) refl (show_nat-IsWord t.sctp_port)
        & named (text "a=max-message-size:") (show_nat max_message_size) refl
            (show_nat-IsWord max_message_size)
        & named (text "a=ice-ufrag:") (P.local_credentials t.ice).ufrag refl r.ufrag_word
        & named (text "a=ice-pwd:") (P.local_credentials t.ice).pwd refl r.pwd_word
        & IsLine-append (text "a=candidate:") (or_default (P.first_local_candidate t.ice) [])
            (fixed (text "a=candidate:") refl)
            (subst IsLine (sym candidate-eq) (spaced-IsLine _ r.fields_words))
        & tt

    -- A peer that parses the SDP of a tunnel as an offer reads the tunnel's own ICE credentials, the
    -- address of its host candidate and its certificate's fingerprint in lower case, where these
    -- are words without white space and the candidate is spelled as one of component 1.
    pub parse-render_sdp :
        parse P (render_sdp setup t)
        ≡ ok (record {
          ufrag = (P.local_credentials t.ice).ufrag;
          pwd = (P.local_credentials t.ice).pwd;
          remote = remote;
          fingerprint = P.to_lowercase t.local_fingerprint;
        })
    unfolding parse render_sdp complete
    parse-render_sdp =
        ap (λ ls. complete P (read_lines P ls nothing_found))
          (lines-join_lines (sdp_lines setup t) sdp_lines-AreLines)
        ∙ ap (complete P) read_lines-sdp_lines
