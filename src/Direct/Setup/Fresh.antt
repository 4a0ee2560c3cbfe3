-- ===== src/Direct/Setup/Fresh.antt =====
-- crates/rtc-tunnel-core/src/direct/mod.rs: what a tunnel is like that a constructor returned.
use rtc_tunnel.Base.{
  ℕ, ◌+◌, ◌≡◌, refl, ◌∙◌, subst, false, List, [], Text, Result, ok, err, done, fail, after, ◌>>◌,
  arith, String, or_default, IsPreorder, then_keeps,
}
use rtc_tunnel.Net.{SocketAddr, Instant, from_millis}
use rtc_tunnel.Config.{TunnelConfig}
use rtc_tunnel.Event.{TunnelResult}
use rtc_tunnel.Trace
use rtc_tunnel.Platform.{Platform}
use rtc_tunnel.Direct.State.{DirectTunnel, Call, Role, with_ice}
use rtc_tunnel.Direct.Change.{IsValid, Plumbing, Plumbing-IsValid}
use rtc_tunnel.Direct.Verify.{fingerprint_of}
use rtc_tunnel.Direct.Setup.{
  and_then, built, add_candidate, with_candidate, fingerprinted, prepared, set_credentials,
  add_candidates, configured, prepare_dtls, start_checks, initial, equip, Surroundings, epoch_of,
  with_agent, with_provider, build, begin,
}

-- Nothing has come up, nothing is queued, and the deadline is the configured time ahead.
pub record Fresh {P : Platform} (c : TunnelConfig) (now_ms : ℕ) (t : DirectTunnel P) : Type 0 where
  pub opened : t.opened ≡ false
  pub finished : t.finished ≡ false
  pub events : t.events ≡ []
  pub deadline :
      t.handshake_deadline ≡ t.epoch + from_millis now_ms + from_millis c.handshake_timeout_ms
  pub trace : t.trace ≡ Trace.new now_ms
  pub stream : t.stream_id ≡ c.stream_id
  pub retransmits : t.max_retransmits ≡ or_default c.max_retransmits 0
  pub remote : t.remote_addr ≡ c.remote
  pub fingerprint : t.remote_fingerprint ≡ c.remote_fingerprint
  pub algorithm : t.fingerprint_algorithm ≡ c.fingerprint_algorithm
  pub unverified : t.disable_fingerprint_verification ≡ c.disable_fingerprint_verification
  pub valid : IsValid t

module _ {P : Platform} where
  Plumbing-refl : (t : DirectTunnel P) → Plumbing t t
  Plumbing-refl t = ground arith

  Plumbing-trans : (a b c : DirectTunnel P) → Plumbing a b → Plumbing b c → Plumbing a c
  Plumbing-trans a b c p q = record {
    epoch = q.epoch ∙ p.epoch;
    deadline = q.deadline ∙ p.deadline;
    stream = q.stream ∙ p.stream;
    retransmits = q.retransmits ∙ p.retransmits;
    remote = q.remote ∙ p.remote;
    fingerprint = q.fingerprint ∙ p.fingerprint;
    algorithm = q.algorithm ∙ p.algorithm;
    unverified = q.unverified ∙ p.unverified;
    opened = q.opened ∙ p.opened;
    finished = q.finished ∙ p.finished;
    dtls_connected = q.dtls_connected ∙ p.dtls_connected;
    sctp_connected = q.sctp_connected ∙ p.sctp_connected;
    channel_dialed = q.channel_dialed ∙ p.channel_dialed;
    events = q.events ∙ p.events;
    trace = q.trace ∙ p.trace;
    association = q.association ∙ p.association;
    handle = q.handle ∙ p.handle;
    sctp = q.sctp ∙ p.sctp;
  }

  Plumbing-IsPreorder : IsPreorder (Plumbing {P = P})
  Plumbing-IsPreorder = record { stay = Plumbing-refl; go_on = Plumbing-trans }

  with_ice-Plumbing :
      (prefix : String) (r : Result Text P.Agent) (t : DirectTunnel P)
      → Plumbing t (after (with_ice prefix r t))
  unfolding with_ice
  with_ice-Plumbing prefix (ok a) t = ground arith
  with_ice-Plumbing prefix (err e) t = Plumbing-refl t

  candidate-Plumbing :
      (prefix : String) (add : P.Candidate → P.Agent → Result Text P.Agent)
      (r : Result Text P.Candidate) (t : DirectTunnel P)
      → Plumbing t (after (with_candidate prefix add r t))
  unfolding with_candidate
  candidate-Plumbing prefix add (err e) t = Plumbing-refl t
  candidate-Plumbing prefix add (ok c) t = with_ice-Plumbing prefix (add c t.ice) t

  add_candidates-Plumbing :
      (c : TunnelConfig) (t : DirectTunnel P) → Plumbing t (after (add_candidates c t))
  unfolding add_candidates add_candidate
  add_candidates-Plumbing c t =
      then_keeps Plumbing-IsPreorder t
        (add_candidate "local candidate: " P.add_local_candidate t.local_addr t)
        (add_candidate "remote candidate: " P.add_remote_candidate c.remote)
        (candidate-Plumbing "local candidate: " P.add_local_candidate _ t)
        (candidate-Plumbing "remote candidate: " P.add_remote_candidate _)

  configured-Plumbing :
      (r : Result Text P.DtlsConfig) (t : DirectTunnel P) → Plumbing t (after (configured r t))
  unfolding configured
  configured-Plumbing (err e) t = Plumbing-refl t
  configured-Plumbing (ok c) t = ground arith

  fingerprinted-Plumbing :
      (r : TunnelResult Text) (chain : List (List ℕ)) (t : DirectTunnel P)
      → Plumbing t (after (fingerprinted r chain t))
  unfolding fingerprinted
  fingerprinted-Plumbing (err e) chain t = Plumbing-refl t
  fingerprinted-Plumbing (ok f) chain t =
      let t' = record t { local_fingerprint = f } in
      Plumbing-trans t t' _ (ground arith) (configured-Plumbing _ t')

  prepared-Plumbing :
      (r : Result Text (List (List ℕ))) (t : DirectTunnel P) → Plumbing t (after (prepared r t))
  unfolding prepared
  prepared-Plumbing (err e) t = Plumbing-refl t
  prepared-Plumbing (ok chain) t = fingerprinted-Plumbing (fingerprint_of P chain) chain t

  equip-Plumbing : (c : TunnelConfig) (t : DirectTunnel P) → Plumbing t (after (equip c t))
  unfolding equip prepare_dtls
  equip-Plumbing c t =
      let prepared_t = prepare_dtls t in
      let added = prepared_t >> add_candidates c in
      then_keeps Plumbing-IsPreorder t added (λ t'. set_credentials c t')
        (then_keeps Plumbing-IsPreorder t prepared_t (add_candidates c)
          (prepared-Plumbing P.generate_certificate t) (add_candidates-Plumbing c))
        (λ s. unfold set_credentials in with_ice-Plumbing "remote credentials: " _ s)

  initial-Fresh :
      (role : Role) (c : TunnelConfig) (local_addr : SocketAddr) (now_ms : ℕ) (epoch : Instant)
      (ice : P.Agent)
      → Fresh c now_ms (initial {P = P} role c local_addr now_ms epoch ice)
  unfolding initial Trace.new
  initial-Fresh role c local_addr now_ms epoch ice = record {
    opened = refl;
    finished = refl;
    events = refl;
    deadline = refl;
    trace = refl;
    stream = refl;
    retransmits = refl;
    remote = refl;
    fingerprint = refl;
    algorithm = refl;
    unverified = refl;
    valid = ground arith;
  }

  Plumbing-Fresh :
      {c : TunnelConfig} {now_ms : ℕ} (t u : DirectTunnel P)
      → Plumbing t u
      → Fresh c now_ms t
      → Fresh c now_ms u
  Plumbing-Fresh t u p f = record {
    opened = p.opened ∙ f.opened;
    finished = p.finished ∙ f.finished;
    events = p.events ∙ f.events;
    deadline = p.deadline ∙ f.deadline ∙ cc (p.epoch);
    trace = p.trace ∙ f.trace;
    stream = p.stream ∙ f.stream;
    retransmits = p.retransmits ∙ f.retransmits;
    remote = p.remote ∙ f.remote;
    fingerprint = p.fingerprint ∙ f.fingerprint;
    algorithm = p.algorithm ∙ f.algorithm;
    unverified = p.unverified ∙ f.unverified;
    valid = Plumbing-IsValid t u p f.valid;
  }

  built-Fresh :
      {c : TunnelConfig} {now_ms : ℕ} (t : DirectTunnel P) (m : Call P (Unit {0}))
      (u : DirectTunnel P)
      → Plumbing t (after m)
      → Fresh c now_ms t
      → built m ≡ ok u
      → Fresh c now_ms u
  built-Fresh t (done a s) u p f e =
      let q : s ≡ u = cc in subst (Fresh _ _) q (Plumbing-Fresh t s p f)
  built-Fresh t (fail x s) u p f e = cc

  start_checks-Plumbing : (t : DirectTunnel P) → Plumbing t (after (start_checks t))
  unfolding start_checks
  start_checks-Plumbing t = with_ice-Plumbing "start checks: " _ t

module _ {P : Platform} (env : Surroundings) (c : TunnelConfig) (local_addr : SocketAddr)
    (now_ms : ℕ) where
  with_agent-Fresh :
      (role : Role) (r : Result Text P.Agent) (t : DirectTunnel P)
      → with_agent P env role c local_addr now_ms r ≡ ok t
      → Fresh c now_ms t
  unfolding with_agent
  with_agent-Fresh role (err e) t h = cc
  with_agent-Fresh role (ok ice) t h =
      let t0 = initial {P = P} role c local_addr now_ms (epoch_of env now_ms) ice in
      built-Fresh t0 (equip c t0) t (equip-Plumbing c t0)
        (initial-Fresh role c local_addr now_ms (epoch_of env now_ms) ice) h

  with_provider-Fresh :
      (role : Role) (r : Result Text (Unit {0})) (t : DirectTunnel P)
      → with_provider P env role c local_addr now_ms r ≡ ok t
      → Fresh c now_ms t
  unfolding with_provider
  with_provider-Fresh role (err e) t h = cc
  with_provider-Fresh role (ok u) t h = with_agent-Fresh role _ t h

  started-Fresh :
      (role : Role) (r : TunnelResult (DirectTunnel P)) (t : DirectTunnel P)
      → ((u : DirectTunnel P) → r ≡ ok u → Fresh c now_ms u)
      → and_then r (λ u. built (start_checks u)) ≡ ok t
      → Fresh c now_ms t
  started-Fresh role (err e) t f h = cc
  started-Fresh role (ok u) t f h =
      built-Fresh u (start_checks u) t (start_checks-Plumbing u) (f u refl) h

  pub begin-Fresh :
      (role : Role) (t : DirectTunnel P)
      → begin P env role c local_addr now_ms ≡ ok t
      → Fresh c now_ms t
  unfolding begin build
  begin-Fresh role t h =
      started-Fresh role (build P env role c local_addr now_ms) t
        (λ u e. with_provider-Fresh role env.provider u e) h
