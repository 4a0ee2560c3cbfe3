-- ===== src/Direct/Sdp.antt =====
-- crates/rtc-tunnel-core/src/direct/mod.rs: the SDP that the tunnel writes, and the few fields of the
-- peer's that it reads.
pub mod Reading
pub mod Attributes
pub mod Offer
use rtc_tunnel.Base.{
  ◌&&◌, Option, none, some, List, [], ◌∷◌, ◌++◌, Text, text, ok, err, if◌then◌else◌, or_default,
}
use rtc_tunnel.Net.{SocketAddr, is_ipv4}
use rtc_tunnel.Event.{TunnelResult, config, max_message_size}
use rtc_tunnel.Platform.{Platform}
use rtc_tunnel.Str.{
  trim, text_eq, strip_prefix, split_once_space, lines, split_whitespace, contains_char, show_nat,
}
use rtc_tunnel.Direct.State.{DirectTunnel, offerer, answerer}

pub record ParsedOffer : Type 0 where
  pub ufrag : Text
  pub pwd : Text
  pub remote : SocketAddr
  pub fingerprint : Text

-- The four variables of `ParsedOffer::parse`.
pub record Found : Type 0 where
  pub ufrag : Option Text
  pub pwd : Option Text
  pub remote : Option SocketAddr
  pub fingerprint : Option Text

abbrev pub nothing_found : Found
nothing_found = record { ufrag = none; pwd = none; remote = none; fingerprint = none }

unfoldable pub candidate_host : Text → Text → Text
candidate_host address port =
    if contains_char 58 address
    then text "[" ++ (address ++ (text "]:" ++ port))
    else address ++ (text ":" ++ port)

abbrev pub or_keep {ℓ} : {A : Type ℓ} → Option A → Option A → Option A
or_keep none old = old
or_keep (some new) old = some new

module _ (P : Platform) where
  unfoldable pub parse_candidate_addr : Text → Text → Option SocketAddr
  parse_candidate_addr address port = P.parse_socket_addr (candidate_host address port)

  -- The value of a fingerprint line behind its algorithm.
  pub fingerprint_value : Text → Option Text
  fingerprint_value value = elim (split_once_space value) [
    | none ↦ none
    | some (_, rest) ↦ some (P.to_lowercase (trim rest))
  ]

  -- `fields.len() >= 8 && fields[1] == "1" && fields[7] == "host"`
  unfoldable pub candidate_fields : List Text → Option SocketAddr
  candidate_fields (_ ∷ component ∷ _ ∷ _ ∷ address ∷ port ∷ _ ∷ kind ∷ _) =
      if text_eq component (text "1") && text_eq kind (text "host")
      then parse_candidate_addr address port
      else none
  candidate_fields _ = none

  unfoldable pub read_candidate : Text → Found → Found
  read_candidate line f = elim (strip_prefix (text "a=candidate:") line) [
    | none ↦ f
    | some value ↦ record f {
      remote = or_keep (candidate_fields (split_whitespace value)) f.remote;
    }
  ]

  unfoldable pub read_fingerprint : Text → Found → Found
  read_fingerprint line f = elim (strip_prefix (text "a=fingerprint:") line) [
    | none ↦ read_candidate line f
    | some value ↦ record f { fingerprint = or_keep (fingerprint_value value) f.fingerprint }
  ]

  unfoldable pub read_pwd : Text → Found → Found
  read_pwd line f = elim (strip_prefix (text "a=ice-pwd:") line) [
    | none ↦ read_fingerprint line f
    | some value ↦ record f { pwd = some (trim value) }
  ]

  -- The chain of `if let` on one trimmed line.
  unfoldable pub read_line : Text → Found → Found
  read_line line f = elim (strip_prefix (text "a=ice-ufrag:") line) [
    | none ↦ read_pwd line f
    | some value ↦ record f { ufrag = some (trim value) }
  ]

  unfoldable pub read_lines : List Text → Found → Found
  read_lines [] f = f
  read_lines (raw ∷ rest) f = read_lines rest (read_line (trim raw) f)

  unfoldable pub complete : Found → TunnelResult ParsedOffer
  complete f = elim f.ufrag [
    | none ↦ err (config (text "offer has no ice-ufrag"))
    | some ufrag ↦ elim f.pwd [
      | none ↦ err (config (text "offer has no ice-pwd"))
      | some pwd ↦ elim f.remote [
        | none ↦ err (config (text "offer has no host candidate"))
        | some remote ↦ ok (record {
          ufrag = ufrag;
          pwd = pwd;
          remote = remote;
          fingerprint = or_default f.fingerprint [];
        })
      ]
    ]
  ]

  unfoldable pub parse : Text → TunnelResult ParsedOffer
  parse sdp = complete (read_lines (lines sdp) nothing_found)

  -- `parse_answer_fingerprint`: the first line that has one.
  answer_line : Text → Option Text
  answer_line line = elim (strip_prefix (text "a=fingerprint:") line) [
    | none ↦ none
    | some value ↦ fingerprint_value value
  ]

  first_fingerprint : List Text → Option Text
  first_fingerprint [] = none
  first_fingerprint (raw ∷ rest) = or_keep (answer_line (trim raw)) (first_fingerprint rest)

  pub parse_answer_fingerprint : Text → Option Text
  parse_answer_fingerprint sdp = first_fingerprint (lines sdp)

-- `"IP4"` and `"0.0.0.0"`, or `"IP6"` and `"::"`.
unfoldable pub family_of : SocketAddr → Text × Text
family_of a = if is_ipv4 a then (text "IP4", text "0.0.0.0") else (text "IP6", text "::")

abbrev crlf : Text
crlf = 13 ∷ 10 ∷ []

-- The lines joined, each with its CR LF.
unfoldable pub join_lines : List Text → Text
join_lines [] = []
join_lines (l ∷ ls) = l ++ (13 ∷ 10 ∷ join_lines ls)

module _ {P : Platform} where
  unfoldable pub sdp_lines : Text → DirectTunnel P → List Text
  sdp_lines setup t =
      let creds = P.local_credentials t.ice in
      let candidate = or_default (P.first_local_candidate t.ice) [] in
      let (family, unspecified) = family_of t.local_addr in
      text "v=0"
      ∷ (text "o=- 0 0 IN " ++ (family ++ (32 ∷ unspecified)))
      ∷ text "s=-"
      ∷ text "t=0 0"
      ∷ (text "a=fingerprint:" ++ (t.fingerprint_algorithm ++ (32 ∷ t.local_fingerprint)))
      ∷ text "a=group:BUNDLE 0"
      ∷ text "m=application 9 UDP/DTLS/SCTP webrtc-datachannel"
      ∷ (text "c=IN " ++ (family ++ (32 ∷ unspecified)))
      ∷ (text "a=setup:" ++ setup)
      ∷ text "a=mid:0"
      ∷ (text "a=sctp-port:" ++ show_nat t.sctp_port)
      ∷ (text "a=max-message-size:" ++ show_nat max_message_size)
      ∷ (text "a=ice-ufrag:" ++ creds.ufrag)
      ∷ (text "a=ice-pwd:" ++ creds.pwd)
      ∷ (text "a=candidate:" ++ candidate)
      ∷ []

  unfoldable pub render_sdp : Text → DirectTunnel P → Text
  render_sdp setup t = join_lines (sdp_lines setup t)

  unfoldable pub offer_sdp : DirectTunnel P → Option Text
  offer_sdp t = some (render_sdp (text "actpass") t)

  unfoldable pub answer_sdp : DirectTunnel P → Option Text
  answer_sdp t = elim t.role [ answerer ↦ some (render_sdp (text "passive") t) | offerer ↦ none ]

  unfoldable pub apply_remote_answer_sdp : Text → DirectTunnel P → DirectTunnel P
  apply_remote_answer_sdp sdp t = elim (parse_answer_fingerprint P sdp) [
    | none ↦ t
    | some fingerprint ↦ record t { remote_fingerprint = fingerprint }
  ]
