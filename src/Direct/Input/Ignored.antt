-- ===== src/Direct/Input/Ignored.antt =====
-- crates/rtc-tunnel-core/src/direct/mod.rs: datagrams that belong to no layer.
use rtc_tunnel.Base.{
  ℕ, ◌≤◌, ◌<◌, ◌≡◌, ◌∙◌, ap, true, false, ◌⊎◌, inl, inr, ◌∷◌, Bytes, arith, if-true, if-false,
}
use rtc_tunnel.Net.{Instant}
use rtc_tunnel.Platform.{Platform}
use rtc_tunnel.Direct.State.{DirectTunnel, is_stun, is_dtls, instant}
use rtc_tunnel.Direct.Input.{classify, ingest_dtls, count_drop, ingest, take_in}

module _ {P : Platform} where
  -- The first byte is in no layer's range, or in that of DTLS before ICE has selected a pair.
  abbrev Unclaimed : ℕ → DirectTunnel P → Type 0
  Unclaimed b t =
      ((3 < b) × (b < 20)) ⊎ (63 < b) ⊎ ((20 ≤ b) × (b ≤ 63) × (P.has_selected_pair t.ice ≡ false))

  classify-Unclaimed :
      (now : Instant) (b : ℕ) (rest : Bytes) (t : DirectTunnel P)
      → Unclaimed b t
      → classify now (b ∷ rest) t ≡ (true, t)
  unfolding classify is_stun is_dtls ingest_dtls
  classify-Unclaimed now b rest t (inl (p, q)) =
      if-false {b = is_stun (b ∷ rest)} _ _ (ground arith)
      ∙ if-false {b = is_dtls (b ∷ rest)} _ _ (ground arith)
  classify-Unclaimed now b rest t (inr (inl p)) =
      if-false {b = is_stun (b ∷ rest)} _ _ (ground arith)
      ∙ if-false {b = is_dtls (b ∷ rest)} _ _ (ground arith)
  classify-Unclaimed now b rest t (inr (inr (p, q, s))) =
      if-false {b = is_stun (b ∷ rest)} _ _ (ground arith)
      ∙ if-true {b = is_dtls (b ∷ rest)} _ _ (ground arith)
      ∙ if-false _ _ s

  -- A datagram whose first byte is neither STUN's nor DTLS's, or is DTLS's before ICE has selected a
  -- pair, changes nothing but the time of the last call: it is not counted as dropped either.
  pub take_in-Unclaimed :
      (n b : ℕ) (rest : Bytes) (t : DirectTunnel P)
      → Unclaimed b t
      → take_in n (b ∷ rest) t ≡ record t { last_now = instant t n }
  unfolding take_in ingest count_drop
  take_in-Unclaimed n b rest t h =
      ap count_drop
        (classify-Unclaimed (instant t n) b rest (record t { last_now = instant t n }) h)
