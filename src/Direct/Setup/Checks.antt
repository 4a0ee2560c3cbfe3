-- ===== src/Direct/Setup/Checks.antt =====
-- crates/rtc-tunnel-core/src/direct/mod.rs: what the constructors have checked when they return.
use rtc_tunnel.Base.{
  sym, ◌↔◌, ℕ, ◌≤◌, ◌≡◌, ◌≢◌, refl, ◌∙◌, Bool, true, false, differ, ◌||◌, [], ◌∷◌, Text, ok, err,
  arith, is_empty, ltb, if-false,
}
use rtc_tunnel.Net.{SocketAddr, is_ipv4, is_unspecified}
use rtc_tunnel.Config.{TunnelConfig}
use rtc_tunnel.Event.{TunnelResult}
use rtc_tunnel.Str.{trim}
use rtc_tunnel.Platform.{Platform}
use rtc_tunnel.Direct.State.{DirectTunnel, answerer}
use rtc_tunnel.Direct.Sdp.{ParsedOffer, parse}
use rtc_tunnel.Direct.Setup.{
  Surroundings, begin, offer, new, answer, answer_to, with_offer, and_then,
}

-- What `new` checks of its arguments.
pub record Accepted (c : TunnelConfig) (local_addr : SocketAddr) : Type 0 where
  pub concrete : is_unspecified c.remote.ip ≡ false
  pub family : is_ipv4 c.remote ≡ is_ipv4 local_addr
  pub fingerprint : trim c.remote_fingerprint ≢ []
  pub ufrag : c.ice_ufrag ≢ []
  pub pwd : c.ice_pwd ≢ []
  pub stream : c.stream_id ≤ 65534

same_family : (a b : Bool) → differ a b ≡ false → a ≡ b
same_family true true e = refl
same_family true false e = cc
same_family false true e = cc
same_family false false e = refl

differ-same : (a b : Bool) → a ≡ b → differ a b ≡ false
differ-same true true e = refl
differ-same true false e = cc
differ-same false true e = cc
differ-same false false e = refl

not_empty : (s : Text) → s ≢ [] → is_empty s ≡ false
not_empty [] h = absurd (h refl)
not_empty (c ∷ s) h = refl

filled : (s : Text) → is_empty s ≡ false → s ≢ []
filled [] e q = cc
filled (c ∷ s) e q = cc

module _ (P : Platform) (env : Surroundings) (c : TunnelConfig) (local_addr : SocketAddr)
    (now_ms : ℕ) where
  new-Accepted : (t : DirectTunnel P) → new P env c local_addr now_ms ≡ ok t → Accepted c local_addr
  unfolding new
  new-Accepted t h = record {
    concrete = ground arith;
    family = same_family (is_ipv4 c.remote) (is_ipv4 local_addr) (ground arith);
    fingerprint = filled (trim c.remote_fingerprint) (ground arith);
    ufrag = filled c.ice_ufrag (ground arith);
    pwd = filled c.ice_pwd (ground arith);
    stream = ground arith;
  }

  -- Where those conditions hold, `new` does what the offerer's constructor does.
  Accepted-new :
      Accepted c local_addr → new P env c local_addr now_ms ≡ offer P env c local_addr now_ms
  unfolding new
  Accepted-new a =
      if-false _ _ a.concrete
      ∙ if-false _ _ (differ-same _ _ a.family)
      ∙ if-false _ _ (not_empty (trim c.remote_fingerprint) a.fingerprint)
      ∙ if-false {b = is_empty c.ice_ufrag || is_empty c.ice_pwd} _ _
          (ground (arith, not_empty c.ice_ufrag a.ufrag, not_empty c.ice_pwd a.pwd))
      ∙ if-false {b = ltb 65534 c.stream_id} _ _ (ground arith)

  -- `new` returns a tunnel exactly if the remote address is concrete and of the local address's family,
  -- the fingerprint is not blank, the ICE credentials are not empty and the stream id is at most
  -- 65534, and the offerer's constructor returns that tunnel.
  pub new_iff :
      (t : DirectTunnel P)
      → (new P env c local_addr now_ms ≡ ok t)
        ↔ (Accepted c local_addr × (offer P env c local_addr now_ms ≡ ok t))
  new_iff t =
      (λ h. let a = new-Accepted t h in (a, sym (Accepted-new a) ∙ h), λ (a, e). Accepted-new a ∙ e)

  answer_to-begin :
      (o : ParsedOffer) (t : DirectTunnel P)
      → answer_to P env o c local_addr now_ms ≡ ok t
      → (is_ipv4 o.remote ≡ is_ipv4 local_addr)
        × (begin P env answerer (with_offer o c) local_addr now_ms ≡ ok t)
  unfolding answer_to
  answer_to-begin o t h =
      (same_family (is_ipv4 o.remote) (is_ipv4 local_addr) (ground arith), ground arith)

  parsed-begin :
      (r : TunnelResult ParsedOffer) (t : DirectTunnel P)
      → and_then r (λ o. answer_to P env o c local_addr now_ms) ≡ ok t
      → (o : ParsedOffer) × (r ≡ ok o)
        × (is_ipv4 o.remote ≡ is_ipv4 local_addr)
        × (begin P env answerer (with_offer o c) local_addr now_ms ≡ ok t)
  parsed-begin (err e) t h = absurd (cc)
  parsed-begin (ok o) t h = let b = answer_to-begin o t h in (o, refl, b.0, b.1)

  -- A tunnel that `answerer` returns was built from an offer that was read, with the offer's
  -- credentials, address and fingerprint, for a stream id of at most 65534 and a remote address of
  -- the local address's family.
  pub answer-offer :
      (sdp : Text) (t : DirectTunnel P)
      → answer P env c local_addr sdp now_ms ≡ ok t
      → (c.stream_id ≤ 65534)
        × ((o : ParsedOffer) × (parse P sdp ≡ ok o)
            × (is_ipv4 o.remote ≡ is_ipv4 local_addr)
            × (begin P env answerer (with_offer o c) local_addr now_ms ≡ ok t))
  unfolding answer
  answer-offer sdp t h = (ground arith, parsed-begin (parse P sdp) t (ground arith))
