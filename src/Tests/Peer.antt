-- ===== src/Tests/Peer.antt =====
-- crates/rtc-tunnel-core/src/direct/mod.rs: constructing a tunnel, and knowing its peer.
use rtc_tunnel.Base.{◌&◌, ◌≡◌, ◌≢◌, ◌↔◌, refl, subst, [], ◌∷◌, Bytes, text, ok, arith}
use rtc_tunnel.Net.{is_unspecified}
use rtc_tunnel.Str.{is_whitespace, trim, trim_start, trim_end, hex_join}
use rtc_tunnel.Str.Words.{AreBytes, IsWord}
use rtc_tunnel.Direct.Verify.{verify_peer, fingerprint_of, hex_of}
use rtc_tunnel.Direct.Verify.Match.{verify_peer_iff, fingerprint_of-verify_peer}
use rtc_tunnel.Direct.Setup.{new, offer}
use rtc_tunnel.Direct.Setup.Checks.{Accepted, new_iff}
use rtc_tunnel.Tests.Toy.{toy, toy_addr}
use rtc_tunnel.Tests.Core.{tunnel, settings, around, tunnel-built}

abbrev pub digest : Bytes
digest = 171 ∷ 12 ∷ []

pub digest-AreBytes : AreBytes digest
digest-AreBytes = (omega arith, (omega arith, tt))

verify_peer_iff_example :
    (verify_peer toy (hex_join digest) (text "sha-256") (digest ∷ []) ≡ ok tt)
    ↔ (toy.sha256 digest ≡ ok digest)
verify_peer_iff_example =
    verify_peer_iff toy digest digest [] digest-AreBytes
      (λ h e. let same : digest ≡ h = cc in subst AreBytes same digest-AreBytes)

own_fingerprint : fingerprint_of toy (digest ∷ []) ≡ ok (text "ab:0c")
unfolding fingerprint_of hex_of hex_join text
own_fingerprint = refl

fingerprint_of-verify_peer_example :
    verify_peer toy (text "ab:0c") (text "sha-256") (digest ∷ []) ≡ ok tt
fingerprint_of-verify_peer_example =
    fingerprint_of-verify_peer toy (digest ∷ []) (text "ab:0c") own_fingerprint

settings-Accepted : Accepted settings toy_addr
unfolding is_unspecified trim trim_start trim_end is_whitespace text
settings-Accepted = record {
  concrete = refl;
  family = refl;
  fingerprint = λ e. cc;
  ufrag = λ e. cc;
  pwd = λ e. cc;
  stream = omega arith;
}

new_iff_example :
    (new toy around settings toy_addr 100 ≡ ok tunnel)
    ↔ (Accepted settings toy_addr × (offer toy around settings toy_addr 100 ≡ ok tunnel))
new_iff_example = new_iff toy around settings toy_addr 100 tunnel

-- The conditions hold of the settings, so `new` returns the tunnel.
new-built : new toy around settings toy_addr 100 ≡ ok tunnel
unfolding offer
new-built = (new_iff toy around settings toy_addr 100 tunnel).1 (settings-Accepted, tunnel-built)

pub sha256-IsWord : IsWord (text "sha-256")
unfolding text is_whitespace
sha256-IsWord = refl & refl & refl & refl & refl & refl & refl & tt

pub fingerprint-IsWord : IsWord (text "ab:0c")
unfolding text is_whitespace
fingerprint-IsWord = refl & refl & refl & refl & refl & tt

pub fingerprint-filled : text "ab:0c" ≢ []
unfolding text
fingerprint-filled e = cc
