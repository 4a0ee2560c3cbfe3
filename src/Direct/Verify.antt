-- ===== src/Direct/Verify.antt =====
-- crates/rtc-tunnel-core/src/direct/mod.rs: fingerprints of certificates, and the check of the peer's.
pub mod Match
use rtc_tunnel.Base.{List, [], ◌∷◌, Bytes, Text, text, Result, ok, err, if◌then◌else◌}
use rtc_tunnel.Event.{TunnelResult, config}
use rtc_tunnel.Platform.{
  Platform, VerifyError, non_certificate, unsupported_fingerprint_algorithm,
  no_matching_fingerprint, crypto_error,
}
use rtc_tunnel.Str.{text_eq, hex_join}
use rtc_tunnel.Direct.State.{config_error}

-- The fingerprint's text against the expected one.
matched : Text → Result Text Bytes → Result VerifyError (Unit {0})
matched expected (err e) = err (crypto_error e)
matched expected (ok hash) =
    if text_eq (hex_join hash) expected then ok tt else err no_matching_fingerprint

unfoldable pub hex_of : Result Text Bytes → TunnelResult Text
hex_of (err e) = err (config_error "fingerprint: " e)
hex_of (ok hash) = ok (hex_join hash)

module _ (P : Platform) where
  -- The closure that `prepare_dtls` hands to DTLS; `expected` is in lower case already.
  pub verify_peer : Text → Text → List Bytes → Result VerifyError (Unit {0})
  verify_peer expected algorithm [] = err non_certificate
  verify_peer expected algorithm (cert ∷ _) =
      if text_eq algorithm (text "sha-256")
      then matched expected (P.sha256 cert)
      else err unsupported_fingerprint_algorithm

  unfoldable pub fingerprint_of : List Bytes → TunnelResult Text
  fingerprint_of [] = err (config (text "certificate chain empty"))
  fingerprint_of (der ∷ _) = hex_of (P.sha256 der)
