-- ===== src/Direct/Sdp/Reading.antt =====
-- crates/rtc-tunnel-core/src/direct/mod.rs: the fingerprint in the SDP that the tunnel writes is the
-- one that its peer reads out of it.
use rtc_tunnel.Base.{
  ℕ, ◌≡◌, ◌≢◌, refl, ◌∙◌, ap, Bool, true, false, Option, none, some, [], ◌∷◌, ◌++◌, Text, text,
  if◌then◌else◌, drop,
}
use rtc_tunnel.Str.{is_whitespace, trim, trim_start, trim_end, strip_prefix, lines}
use rtc_tunnel.Str.Words.{
  IsWord, IsLine, IsWord-IsLine, IsLine-append, trim-cons, trim_end-append, trim_end-prefix,
  strip_prefix-append, filled_after, is_line, is_line-IsLine, trim-IsWord, lines-append,
  split_once_space-append,
}
use rtc_tunnel.Net.{is_ipv4}
use rtc_tunnel.Platform.{Platform}
use rtc_tunnel.Direct.State.{DirectTunnel}
use rtc_tunnel.Direct.Sdp.{
  or_keep, fingerprint_value, answer_line, first_fingerprint, parse_answer_fingerprint, family_of,
  join_lines, sdp_lines, render_sdp,
}

-- The fingerprint line of the SDP.
abbrev pub fingerprint_line : Text → Text → Text
fingerprint_line algorithm fingerprint = text "a=fingerprint:" ++ (algorithm ++ (32 ∷ fingerprint))

pub trim-fingerprint_line :
    (algorithm : Text) (c : ℕ) (w : Text)
    → IsWord (c ∷ w)
    → trim (fingerprint_line algorithm (c ∷ w)) ≡ fingerprint_line algorithm (c ∷ w)
unfolding text
trim-fingerprint_line algorithm c w f =
    trim-cons 97 (drop 1 (text "a=fingerprint:") ++ (algorithm ++ (32 ∷ c ∷ w)))
      (unfold is_whitespace in refl)
    ∙ ap (λ s. 97 ∷ s)
        (trim_end-prefix (drop 1 (text "a=fingerprint:")) (algorithm ++ (32 ∷ c ∷ w))
          (trim_end-prefix algorithm (32 ∷ c ∷ w) (trim_end-append (32 ∷ []) c w f) refl)
          (filled_after algorithm (32 ∷ c ∷ w) refl))

-- The line of the session's origin.
abbrev pub family : Bool → Text × Text
family ipv4 = if ipv4 then (text "IP4", text "0.0.0.0") else (text "IP6", text "::")

abbrev pub origin : Bool → Text
origin ipv4 =
    let (name, unspecified) = family ipv4 in text "o=- 0 0 IN " ++ (name ++ (32 ∷ unspecified))

pub origin-is_line : (b : Bool) → is_line (origin b) ≡ true
unfolding text is_line
origin-is_line true = refl
origin-is_line false = refl

pub fingerprint_line-IsLine :
    (algorithm fingerprint : Text)
    → IsWord algorithm
    → IsWord fingerprint
    → IsLine (fingerprint_line algorithm fingerprint)
fingerprint_line-IsLine algorithm fingerprint a f =
    IsLine-append (text "a=fingerprint:") (algorithm ++ (32 ∷ fingerprint))
      (is_line-IsLine (text "a=fingerprint:") (unfold is_line text in refl))
      (IsLine-append algorithm (32 ∷ fingerprint) (IsWord-IsLine algorithm a)
        (refl, IsWord-IsLine fingerprint f))

module _ (P : Platform) where
  pub fingerprint_value-split :
      (algorithm fingerprint : Text)
      → IsWord algorithm
      → IsWord fingerprint
      → fingerprint_value P (algorithm ++ (32 ∷ fingerprint)) ≡ some (P.to_lowercase fingerprint)
  unfolding fingerprint_value
  fingerprint_value-split algorithm fingerprint a f =
      ap
        (λ (o : Option (Text × Text)). elim o [
          | none ↦ none
          | some (_, rest) ↦ some (P.to_lowercase (trim rest))
        ])
        (split_once_space-append algorithm fingerprint a)
      ∙ ap (λ s. some (P.to_lowercase s)) (trim-IsWord fingerprint f)

  answer_line-fingerprint :
      (algorithm : Text) (c : ℕ) (w : Text)
      → IsWord algorithm
      → IsWord (c ∷ w)
      → answer_line P (trim (fingerprint_line algorithm (c ∷ w))) ≡ some (P.to_lowercase (c ∷ w))
  unfolding answer_line
  answer_line-fingerprint algorithm c w a f =
      ap (answer_line P) (trim-fingerprint_line algorithm c w f)
      ∙ ap (λ (o : Option Text). elim o [ none ↦ none | some value ↦ fingerprint_value P value ])
          (strip_prefix-append (text "a=fingerprint:") (algorithm ++ (32 ∷ c ∷ w)))
      ∙ fingerprint_value-split algorithm (c ∷ w) a f

  -- A line that has no fingerprint is passed over.
  first_fingerprint-skip :
      (l rest : Text)
      → is_line l ≡ true
      → answer_line P (trim l) ≡ none
      → first_fingerprint P (lines (l ++ (13 ∷ 10 ∷ rest))) ≡ first_fingerprint P (lines rest)
  unfolding first_fingerprint
  first_fingerprint-skip l rest h e =
      ap (first_fingerprint P) (lines-append l rest (is_line-IsLine l h))
      ∙ ap (λ o. or_keep o (first_fingerprint P (lines rest))) e

  first_fingerprint-found :
      (l rest : Text) (f : Text)
      → IsLine l
      → answer_line P (trim l) ≡ some f
      → first_fingerprint P (lines (l ++ (13 ∷ 10 ∷ rest))) ≡ some f
  unfolding first_fingerprint
  first_fingerprint-found l rest f h e =
      ap (first_fingerprint P) (lines-append l rest h)
      ∙ ap (λ o. or_keep o (first_fingerprint P (lines rest))) e

  origin-none : (b : Bool) → answer_line P (trim (origin b)) ≡ none
  unfolding text answer_line trim trim_start trim_end strip_prefix is_whitespace
  origin-none true = refl
  origin-none false = refl

  version-none : answer_line P (trim (text "v=0")) ≡ none
  unfolding text answer_line trim trim_start trim_end strip_prefix is_whitespace
  version-none = refl

  session-none : answer_line P (trim (text "s=-")) ≡ none
  unfolding text answer_line trim trim_start trim_end strip_prefix is_whitespace
  session-none = refl

  time-none : answer_line P (trim (text "t=0 0")) ≡ none
  unfolding text answer_line trim trim_start trim_end strip_prefix is_whitespace
  time-none = refl

  filled-fingerprint :
      (algorithm fingerprint : Text)
      → IsWord algorithm
      → IsWord fingerprint
      → fingerprint ≢ []
      → answer_line P (trim (fingerprint_line algorithm fingerprint))
        ≡ some (P.to_lowercase fingerprint)
  filled-fingerprint algorithm [] a f h = absurd (h refl)
  filled-fingerprint algorithm (c ∷ w) a f h = answer_line-fingerprint algorithm c w a f

module _ {P : Platform} where
  -- The fingerprint that a peer reads out of the SDP that a tunnel writes is the tunnel's own, in
  -- lower case, where the algorithm and the fingerprint have no white space in them and the
  -- fingerprint is there.
  pub render_sdp-fingerprint :
      (setup : Text) (t : DirectTunnel P)
      → IsWord t.fingerprint_algorithm
      → IsWord t.local_fingerprint
      → t.local_fingerprint ≢ []
      → parse_answer_fingerprint P (render_sdp setup t) ≡ some (P.to_lowercase t.local_fingerprint)
  unfolding parse_answer_fingerprint render_sdp sdp_lines join_lines family_of
  render_sdp-fingerprint setup t a f h =
      first_fingerprint-skip P (text "v=0") _ (unfold is_line text in refl) (version-none P)
      ∙ first_fingerprint-skip P (origin (is_ipv4 t.local_addr)) _
          (origin-is_line (is_ipv4 t.local_addr)) (origin-none P (is_ipv4 t.local_addr))
      ∙ first_fingerprint-skip P (text "s=-") _ (unfold is_line text in refl) (session-none P)
      ∙ first_fingerprint-skip P (text "t=0 0") _ (unfold is_line text in refl) (time-none P)
      ∙ first_fingerprint-found P (fingerprint_line t.fingerprint_algorithm t.local_fingerprint) _
          (P.to_lowercase t.local_fingerprint)
          (fingerprint_line-IsLine t.fingerprint_algorithm t.local_fingerprint a f)
          (filled-fingerprint P t.fingerprint_algorithm t.local_fingerprint a f h)
