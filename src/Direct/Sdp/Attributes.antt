-- ===== src/Direct/Sdp/Attributes.antt =====
-- crates/rtc-tunnel-core/src/direct/mod.rs: how `ParsedOffer::parse` takes one line of an SDP.
use rtc_tunnel.Base.{
  ℕ, ◌≤◌, ◌<◌, ◌≡◌, ◌≢◌, refl, ◌∙◌, ap, true, false, Option, none, some, List, [], ◌∷◌, ◌++◌, Text,
  text, drop, arith, ◌==◌,
}
use rtc_tunnel.Str.{is_whitespace, trim, trim_end, strip_prefix, lines}
use rtc_tunnel.Str.Words.{
  visible, IsWord, IsLine, IsWord-IsLine, IsLine-append, trim-cons, trim_end-prefix,
  trim_end-IsWord, strip_prefix-append, is_line, is_line-IsLine, trim-IsWord, lines-append,
  lines-nil, trim_end-cons, strip_prefix-ne,
}
use rtc_tunnel.Str.Fields.{spaced, AreWords, split_whitespace-spaced, trim_end-spaced}
use rtc_tunnel.Platform.{Platform}
use rtc_tunnel.Direct.Sdp.{
  Found, or_keep, candidate_fields, read_candidate, read_fingerprint, read_pwd, read_line,
  read_lines, join_lines,
}
use rtc_tunnel.Direct.Sdp.Reading.{fingerprint_line, trim-fingerprint_line, fingerprint_value-split}

abbrev pub AreLines : List Text → Type 0
AreLines [] = Unit {0}
AreLines (l ∷ ls) = IsLine l × AreLines ls

-- Joined lines are read back as they were.
pub lines-join_lines : (ls : List Text) → AreLines ls → lines (join_lines ls) ≡ ls
unfolding join_lines
lines-join_lines [] h = lines-nil
lines-join_lines (l ∷ ls) h =
    lines-append l (join_lines ls) h.0 ∙ ap (λ us. l ∷ us) (lines-join_lines ls h.1)

-- `a=`, a name, a colon and a word.
trim-attribute :
    (name w : Text) → IsWord w → trim (97 ∷ (name ++ (58 ∷ w))) ≡ 97 ∷ (name ++ (58 ∷ w))
trim-attribute name w h =
    trim-cons 97 (name ++ (58 ∷ w)) (unfold is_whitespace in refl)
    ∙ ap (λ s. 97 ∷ s)
        (trim_end-prefix name (58 ∷ w)
          (trim_end-IsWord (58 ∷ w) (unfold is_whitespace in (refl, h))) refl)

pub attribute-IsLine : (name w : Text) → is_line name ≡ true → IsWord w → IsLine (name ++ w)
attribute-IsLine name w n h = IsLine-append name w (is_line-IsLine name n) (IsWord-IsLine w h)

module _ (P : Platform) where
  pub read_lines-cons :
      (l : Text) (ls : List Text) (f g : Found)
      → read_line P (trim l) f ≡ g
      → read_lines P (l ∷ ls) f ≡ read_lines P ls g
  unfolding read_lines
  read_lines-cons l ls f g e = ap (read_lines P ls) e

  pub ufrag_line :
      (w : Text) (f : Found)
      → IsWord w
      → read_line P (trim (text "a=ice-ufrag:" ++ w)) f ≡ record f { ufrag = some w }
  unfolding read_line text
  ufrag_line w f h =
      ap (λ l. read_line P l f) (trim-attribute (drop 1 (text "a=ice-ufrag")) w h)
      ∙ ap
          (λ (o : Option Text). elim o [
            | none ↦ read_pwd P (text "a=ice-ufrag:" ++ w) f
            | some value ↦ record f { ufrag = some (trim value) }
          ])
          (strip_prefix-append (text "a=ice-ufrag:") w)
      ∙ ap (λ v. record f { ufrag = some v }) (trim-IsWord w h)

  pub pwd_line :
      (w : Text) (f : Found)
      → IsWord w
      → read_line P (trim (text "a=ice-pwd:" ++ w)) f ≡ record f { pwd = some w }
  unfolding read_line read_pwd text
  pwd_line w f h =
      ap (λ l. read_line P l f) (trim-attribute (drop 1 (text "a=ice-pwd")) w h)
      ∙ unfold strip_prefix in ap (λ v. record f { pwd = some v }) (trim-IsWord w h)

  fingerprint_line-read :
      (algorithm : Text) (c : ℕ) (w : Text) (f : Found)
      → IsWord algorithm
      → IsWord (c ∷ w)
      → read_line P (trim (fingerprint_line algorithm (c ∷ w))) f
        ≡ record f { fingerprint = some (P.to_lowercase (c ∷ w)) }
  unfolding read_line read_pwd read_fingerprint text
  fingerprint_line-read algorithm c w f a h =
      ap (λ l. read_line P l f) (trim-fingerprint_line algorithm c w h)
      ∙ unfold strip_prefix in
        ap (λ v. record f { fingerprint = or_keep v f.fingerprint })
          (fingerprint_value-split P algorithm (c ∷ w) a h)

  pub filled_fingerprint :
      (algorithm w : Text) (f : Found)
      → IsWord algorithm
      → IsWord w
      → w ≢ []
      → read_line P (trim (fingerprint_line algorithm w)) f
        ≡ record f { fingerprint = some (P.to_lowercase w) }
  filled_fingerprint algorithm [] f a h n = absurd (n refl)
  filled_fingerprint algorithm (c ∷ w) f a h n = fingerprint_line-read algorithm c w f a h

  trim-candidate :
      (w : Text) (ws : List Text)
      → AreWords (w ∷ ws)
      → trim (text "a=candidate:" ++ spaced (w ∷ ws)) ≡ text "a=candidate:" ++ spaced (w ∷ ws)
  unfolding text
  trim-candidate w ws h =
      trim-cons 97 (drop 1 (text "a=candidate:") ++ spaced (w ∷ ws)) (unfold is_whitespace in refl)
      ∙ ap (λ s. 97 ∷ s)
          (trim_end-prefix (drop 1 (text "a=candidate")) (58 ∷ spaced (w ∷ ws))
            (trim_end-cons 58 (spaced (w ∷ ws)) (unfold is_whitespace in refl)
              ∙ ap (λ s. 58 ∷ s) (trim_end-spaced w ws h))
            refl)

  pub candidate_line :
      (w : Text) (ws : List Text) (f : Found)
      → AreWords (w ∷ ws)
      → read_line P (trim (text "a=candidate:" ++ spaced (w ∷ ws))) f
        ≡ record f { remote = or_keep (candidate_fields P (w ∷ ws)) f.remote }
  unfolding read_line read_pwd read_fingerprint read_candidate text
  candidate_line w ws f h =
      ap (λ l. read_line P l f) (trim-candidate w ws h)
      ∙ unfold strip_prefix in
        ap (λ us. record f { remote = or_keep (candidate_fields P us) f.remote })
          (split_whitespace-spaced (w ∷ ws) h)

  -- A line that is no attribute, and one whose name begins with another letter, are passed over.
  passed_over :
      (l : Text) (f : Found)
      → strip_prefix (text "a=ice-ufrag:") l ≡ none
      → strip_prefix (text "a=ice-pwd:") l ≡ none
      → strip_prefix (text "a=fingerprint:") l ≡ none
      → strip_prefix (text "a=candidate:") l ≡ none
      → read_line P l f ≡ f
  unfolding read_line read_pwd read_fingerprint read_candidate
  passed_over l f u p q r = ground arith

  other_line :
      (c : ℕ) (s : Text) (f : Found)
      → is_whitespace c ≡ false
      → (97 == c) ≡ false
      → read_line P (trim (c ∷ s)) f ≡ f
  unfolding text
  other_line c s f v n =
      let e : (ps : Text) → strip_prefix (97 ∷ ps) (c ∷ trim_end s) ≡ none =
        λ ps. strip_prefix-ne 97 c ps (trim_end s) n in
      ap (λ l. read_line P l f) (trim-cons c s v)
      ∙ passed_over (c ∷ trim_end s) f (e _) (e _) (e _) (e _)

  other_attribute :
      (c : ℕ) (s : Text) (f : Found)
      → is_whitespace c ≡ false
      → (105 == c) ≡ false
      → (102 == c) ≡ false
      → (99 == c) ≡ false
      → read_line P (trim (97 ∷ 61 ∷ c ∷ s)) f ≡ f
  unfolding text strip_prefix
  other_attribute c s f v i p q =
      ap (λ l. read_line P l f)
        (trim-cons 97 (61 ∷ c ∷ s) (unfold is_whitespace in refl)
          ∙ ap (λ t. 97 ∷ t)
              (trim_end-cons 61 (c ∷ s) (unfold is_whitespace in refl)
                ∙ ap (λ t. 61 ∷ t) (trim_end-cons c s v)))
      ∙ passed_over (97 ∷ 61 ∷ c ∷ trim_end s) f
          (strip_prefix-ne 105 c (drop 3 (text "a=ice-ufrag:")) (trim_end s) i)
          (strip_prefix-ne 105 c (drop 3 (text "a=ice-pwd:")) (trim_end s) i)
          (strip_prefix-ne 102 c (drop 3 (text "a=fingerprint:")) (trim_end s) p)
          (strip_prefix-ne 99 c (drop 3 (text "a=candidate:")) (trim_end s) q)

  -- The same, of the first of the lines.
  pub skip_line :
      (c : ℕ) (s : Text) (ls : List Text) (f : Found)
      → 98 ≤ c
      → c < 123
      → read_lines P ((c ∷ s) ∷ ls) f ≡ read_lines P ls f
  skip_line c s ls f p q =
      read_lines-cons (c ∷ s) ls f f
        (other_line c s f (visible c (omega arith) (omega arith)) (ground arith))

  pub skip_attribute :
      (c : ℕ) (s : Text) (ls : List Text) (f : Found)
      → 103 ≤ c
      → c < 123
      → (105 == c) ≡ false
      → read_lines P ((97 ∷ 61 ∷ c ∷ s) ∷ ls) f ≡ read_lines P ls f
  skip_attribute c s ls f p q n = read_lines-cons (97 ∷ 61 ∷ c ∷ s) ls f f (
      other_attribute c s f (visible c (omega arith) (omega arith)) n (ground arith) (ground arith))
