-- ===== src/Direct/Verify/Match.antt =====
-- crates/rtc-tunnel-core/src/direct/mod.rs: the certificate check accepts one hash and no other.
use rtc_tunnel.Base.{
  ℕ, ◌/◌, ◌%◌, ◌<◌, ◌≡◌, ◌↔◌, refl, ◌∙◌, sym, ap, true, List, [], ◌∷◌, ◌++◌, Bytes, Text, text,
  Result, ok, err, arith, if◌then◌else◌, if-true, append-nil, Bool-cases, inl, inr,
}
use rtc_tunnel.Str.{text_eq, hex_join, hex_byte, hex_digit}
use rtc_tunnel.Str.Words.{AreBytes}
use rtc_tunnel.Platform.{Platform, unsupported_fingerprint_algorithm, no_matching_fingerprint}
use rtc_tunnel.Direct.Verify.{verify_peer, matched, fingerprint_of, hex_of}

text_eq_refl : (s : Text) → text_eq s s ≡ true
unfolding text_eq
text_eq_refl [] = refl
text_eq_refl (c ∷ s) = ground (arith, text_eq_refl s)

text_eq_sound : (s t : Text) → text_eq s t ≡ true → s ≡ t
unfolding text_eq
text_eq_sound [] [] e = refl
text_eq_sound [] (_ ∷ _) e = cc
text_eq_sound (_ ∷ _) [] e = cc
text_eq_sound (a ∷ s) (b ∷ t) e = ground (arith, text_eq_sound s t)

hex_digit-injective : (a b : ℕ) → a < 16 → b < 16 → hex_digit a ≡ hex_digit b → a ≡ b
hex_digit-injective a b p q e = ground arith

hex_byte-injective :
    (a b : ℕ) (s t : Text)
    → a < 256
    → b < 256
    → hex_byte a ++ s ≡ hex_byte b ++ t
    → (a ≡ b) × (s ≡ t)
unfolding hex_byte
hex_byte-injective a b s t p q e =
    let high : hex_digit (a / 16) ≡ hex_digit (b / 16) = cc in
    let low : hex_digit (a % 16) ≡ hex_digit (b % 16) = cc in
    let rest : s ≡ t = cc in
    (
      omega (
        arith,
        hex_digit-injective (a / 16) (b / 16) (omega arith) (omega arith) high,
        hex_digit-injective (a % 16) (b % 16) (omega arith) (omega arith) low,
      ),
      rest,
    )

hex_join-injective :
    (xs ys : Bytes) → AreBytes xs → AreBytes ys → hex_join xs ≡ hex_join ys → xs ≡ ys
unfolding hex_join
hex_join-injective [] [] p q e = refl
hex_join-injective [] (b ∷ []) p q e = cc
hex_join-injective [] (b ∷ _ ∷ _) p q e = cc
hex_join-injective (a ∷ []) [] p q e = cc
hex_join-injective (a ∷ _ ∷ _) [] p q e = cc
hex_join-injective (a ∷ []) (b ∷ []) p q e =
    let r = hex_byte-injective a b [] [] p.0 q.0 (ap (λ l. l ++ []) e) in ap (λ x. x ∷ []) r.0
hex_join-injective (a ∷ []) (b ∷ c ∷ ys) p q e =
    let r =
      hex_byte-injective a b [] (58 ∷ hex_join (c ∷ ys)) p.0 q.0 (append-nil (hex_byte a) ∙ e) in
    absurd (cc (r.1))
hex_join-injective (a ∷ c ∷ xs) (b ∷ []) p q e =
    let r =
      hex_byte-injective a b (58 ∷ hex_join (c ∷ xs)) [] p.0 q.0
        (e ∙ sym (append-nil (hex_byte b))) in
    absurd (cc (r.1))
hex_join-injective (a ∷ c ∷ xs) (b ∷ d ∷ ys) p q e =
    let r = hex_byte-injective a b (58 ∷ hex_join (c ∷ xs)) (58 ∷ hex_join (d ∷ ys)) p.0 q.0 e in
    let tails : hex_join (c ∷ xs) ≡ hex_join (d ∷ ys) = cc (r.1) in
    let rest = hex_join-injective (c ∷ xs) (d ∷ ys) p.1 q.1 tails in cc (r.0, rest)

-- The hash of a digest that did not fail.
abbrev hash_of : Result Text Bytes → Bytes
hash_of (ok h) = h
hash_of (err _) = []

matched_iff :
    (hash : Bytes) (r : Result Text Bytes)
    → AreBytes hash
    → ((h : Bytes) → r ≡ ok h → AreBytes h)
    → (matched (hex_join hash) r ≡ ok tt) ↔ (r ≡ ok hash)
unfolding matched
matched_iff hash (err e) b law = (λ h. absurd (cc), λ h. absurd (cc))
matched_iff hash (ok h) b law = (
  λ e. elim (Bool-cases (text_eq (hex_join h) (hex_join hash))) [
    | inl q ↦
        ap (λ x. ok x)
          (hex_join-injective h hash (law h refl) b (text_eq_sound (hex_join h) (hex_join hash) q))
    | inr q ↦ absurd (ground arith)
  ],
  λ e. if-true (ok tt) (err no_matching_fingerprint) (
      ap (λ (r : Result Text Bytes). text_eq (hex_join (hash_of r)) (hex_join hash)) e
      ∙ text_eq_refl (hex_join hash)),
)

matched-hex_of : (f : Text) (r : Result Text Bytes) → hex_of r ≡ ok f → matched f r ≡ ok tt
unfolding matched hex_of
matched-hex_of f (err e) q = cc
matched-hex_of f (ok h) q =
    let same : hex_join h ≡ f = cc in
    if-true (ok tt) (err no_matching_fingerprint)
      (ap (λ s. text_eq (hex_join h) s) (sym same) ∙ text_eq_refl (hex_join h))

sha256_named :
    {A : Type 0} (x y : A) → (if text_eq (text "sha-256") (text "sha-256") then x else y) ≡ x
sha256_named x y = if-true x y (text_eq_refl (text "sha-256"))

module _ (P : Platform) where
  -- A tunnel whose expected fingerprint is the text of a hash accepts a certificate exactly if the
  -- SHA-256 of the chain's first certificate is that hash, where SHA-256 yields bytes.
  pub verify_peer_iff :
      (hash : Bytes) (cert : Bytes) (chain : List Bytes)
      → AreBytes hash
      → ((h : Bytes) → P.sha256 cert ≡ ok h → AreBytes h)
      → (verify_peer P (hex_join hash) (text "sha-256") (cert ∷ chain) ≡ ok tt)
        ↔ (P.sha256 cert ≡ ok hash)
  unfolding verify_peer matched
  verify_peer_iff hash cert chain b law =
      let m = matched_iff hash (P.sha256 cert) b law in
      let named =
        sha256_named (matched (hex_join hash) (P.sha256 cert))
          (err unsupported_fingerprint_algorithm) in
      (λ e. m.0 (sym named ∙ e), λ e. named ∙ m.1 e)

  -- A certificate chain passes the check against the fingerprint that its owner computes of it.
  pub fingerprint_of-verify_peer :
      (chain : List Bytes) (f : Text)
      → fingerprint_of P chain ≡ ok f
      → verify_peer P f (text "sha-256") chain ≡ ok tt
  unfolding verify_peer matched fingerprint_of hex_of
  fingerprint_of-verify_peer [] f e = cc
  fingerprint_of-verify_peer (der ∷ chain) f e =
      sha256_named (matched f (P.sha256 der)) _ ∙ matched-hex_of f (P.sha256 der) e
