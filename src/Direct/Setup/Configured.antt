-- ===== src/Direct/Setup/Configured.antt =====
-- crates/rtc-tunnel-core/src/direct/mod.rs: the DTLS endpoint of a tunnel that a constructor
-- returned, and the configuration it was built with.
use rtc_tunnel.Base.{
  ◌≡◌, refl, sym, ◌∙◌, ap, subst, some, List, Bytes, Text, String, Result, ok, err, done, fail,
  ◌>>◌, if◌then◌else◌, ℕ,
}
use rtc_tunnel.Net.{SocketAddr}
use rtc_tunnel.Config.{TunnelConfig}
use rtc_tunnel.Event.{TunnelResult}
use rtc_tunnel.Platform.{Platform}
use rtc_tunnel.Direct.State.{DirectTunnel, Call, Role, is_offerer, with_ice}
use rtc_tunnel.Direct.Verify.{fingerprint_of}
use rtc_tunnel.Direct.Setup.{
  and_then, built, verifier, dtls_options, configured, fingerprinted, prepared, prepare_dtls,
  with_candidate, add_candidate, add_candidates, set_credentials, equip, initial, epoch_of,
  start_checks, Surroundings, with_agent, with_provider, build, begin,
}

-- The endpoint is the one that the options of the tunnel, over a certificate that was generated,
-- give: its check is the tunnel's `verifier`.
pub record Configured {P : Platform} (role : Role) (t : DirectTunnel P) : Type 0 where
  pub certificate : List Bytes
  pub config : P.DtlsConfig
  pub kind : t.role ≡ role
  pub generated : P.generate_certificate ≡ ok certificate
  pub own : fingerprint_of P certificate ≡ ok t.local_fingerprint
  pub options :
      P.build_dtls_config (dtls_options certificate t) (is_offerer role) t.remote_addr ≡ ok config
  pub held : t.dtls_config ≡ some config
  pub served :
      t.dtls ≡ (if is_offerer role then P.new_dtls else P.set_server_config config P.new_dtls)

module _ {P : Platform} (role : Role) where
  -- If the call returns, it returns a configured tunnel.
  abbrev Ends : Call P (Unit {0}) → Type 0
  Ends (done _ t) = Configured role t
  Ends (fail _ _) = Unit {0}

  then-Ends :
      (m : Call P (Unit {0})) (k : DirectTunnel P → Call P (Unit {0}))
      → Ends m
      → ((t : DirectTunnel P) → Configured role t → Ends (k t))
      → Ends (m >> k)
  then-Ends (done _ t) k e f = f t e
  then-Ends (fail _ _) k e f = tt

  ice_set-Configured :
      (a : P.Agent) (t : DirectTunnel P)
      → Configured role t
      → Configured role (record t { ice = a })
  unfolding dtls_options verifier
  ice_set-Configured a t c = record {
    certificate = c.certificate;
    config = c.config;
    kind = c.kind;
    generated = c.generated;
    own = c.own;
    options = c.options;
    held = c.held;
    served = c.served;
  }

  with_ice-Ends :
      (prefix : String) (r : Result Text P.Agent) (t : DirectTunnel P)
      → Configured role t
      → Ends (with_ice prefix r t)
  unfolding with_ice
  with_ice-Ends prefix (ok a) t c = ice_set-Configured a t c
  with_ice-Ends prefix (err e) t c = tt

  with_candidate-Ends :
      (prefix : String) (add : P.Candidate → P.Agent → Result Text P.Agent)
      (r : Result Text P.Candidate) (t : DirectTunnel P)
      → Configured role t
      → Ends (with_candidate prefix add r t)
  unfolding with_candidate
  with_candidate-Ends prefix add (err e) t c = tt
  with_candidate-Ends prefix add (ok x) t c = with_ice-Ends prefix (add x t.ice) t c

  add_candidates-Ends :
      (c : TunnelConfig) (t : DirectTunnel P) → Configured role t → Ends (add_candidates c t)
  unfolding add_candidates add_candidate
  add_candidates-Ends c t h =
      then-Ends (add_candidate "local candidate: " P.add_local_candidate t.local_addr t)
        (add_candidate "remote candidate: " P.add_remote_candidate c.remote)
        (with_candidate-Ends "local candidate: " P.add_local_candidate _ t h)
        (with_candidate-Ends "remote candidate: " P.add_remote_candidate _)

  configured-Ends :
      (certificate : List Bytes) (r : Result Text P.DtlsConfig) (t : DirectTunnel P)
      → P.generate_certificate ≡ ok certificate
      → fingerprint_of P certificate ≡ ok t.local_fingerprint
      → P.build_dtls_config (dtls_options certificate t) (is_offerer t.role) t.remote_addr ≡ r
      → t.role ≡ role
      → t.dtls ≡ P.new_dtls
      → Ends (configured r t)
  unfolding configured dtls_options verifier
  configured-Ends certificate (err e) t g f b k n = tt
  configured-Ends certificate (ok c) t g f b k n = record {
    certificate = certificate;
    config = c;
    kind = k;
    generated = g;
    own = f;
    options =
        ap (λ x. P.build_dtls_config (dtls_options certificate t) (is_offerer x) t.remote_addr)
          (sym k)
        ∙ b;
    held = refl;
    served =
        ap (λ x. if is_offerer x then t.dtls else P.set_server_config c t.dtls) k
        ∙ ap (λ x. if is_offerer role then x else P.set_server_config c x) n;
  }

  fingerprinted-Ends :
      (certificate : List Bytes) (r : TunnelResult Text) (t : DirectTunnel P)
      → P.generate_certificate ≡ ok certificate
      → fingerprint_of P certificate ≡ r
      → t.role ≡ role
      → t.dtls ≡ P.new_dtls
      → Ends (fingerprinted r certificate t)
  unfolding fingerprinted
  fingerprinted-Ends certificate (err e) t g f k n = tt
  fingerprinted-Ends certificate (ok own) t g f k n =
      configured-Ends certificate _ (record t { local_fingerprint = own }) g f refl k n

  prepared-Ends :
      (r : Result Text (List Bytes)) (t : DirectTunnel P)
      → P.generate_certificate ≡ r
      → t.role ≡ role
      → t.dtls ≡ P.new_dtls
      → Ends (prepared r t)
  unfolding prepared
  prepared-Ends (err e) t g k n = tt
  prepared-Ends (ok certificate) t g k n = fingerprinted-Ends certificate _ t g refl k n

  equip-Ends :
      (c : TunnelConfig) (t : DirectTunnel P)
      → t.role ≡ role
      → t.dtls ≡ P.new_dtls
      → Ends (equip c t)
  unfolding equip prepare_dtls
  equip-Ends c t k n =
      then-Ends (prepare_dtls t >> add_candidates c) (set_credentials c)
        (then-Ends (prepare_dtls t) (add_candidates c)
          (prepared-Ends P.generate_certificate t refl k n) (add_candidates-Ends c))
        (λ s h. unfold set_credentials in with_ice-Ends "remote credentials: " _ s h)

  -- What is returned is configured, if anything is.
  abbrev Returned : TunnelResult (DirectTunnel P) → Type 0
  Returned (ok t) = Configured role t
  Returned (err e) = Unit {0}

  built-Returned : (m : Call P (Unit {0})) → Ends m → Returned (built m)
  built-Returned (done _ t) h = h
  built-Returned (fail _ _) h = tt

  started-Returned :
      (r : TunnelResult (DirectTunnel P))
      → Returned r
      → Returned (and_then r (λ t. built (start_checks t)))
  unfolding start_checks
  started-Returned (err e) h = tt
  started-Returned (ok t) h = built-Returned (start_checks t) (with_ice-Ends "start checks: " _ t h)

module _ (P : Platform) (env : Surroundings) (role : Role) (c : TunnelConfig)
    (local_addr : SocketAddr) (now_ms : ℕ) where
  with_agent-Returned :
      (r : Result Text P.Agent) → Returned role (with_agent P env role c local_addr now_ms r)
  unfolding with_agent initial
  with_agent-Returned (err e) = tt
  with_agent-Returned (ok ice) =
      let t = initial {P = P} role c local_addr now_ms (epoch_of env now_ms) ice in
      built-Returned role (equip c t) (equip-Ends role c t refl refl)

  with_provider-Returned :
      (r : Result Text (Unit {0})) → Returned role (with_provider P env role c local_addr now_ms r)
  unfolding with_provider
  with_provider-Returned (err e) = tt
  with_provider-Returned (ok _) = with_agent-Returned _

  -- A tunnel that a constructor returned has the DTLS endpoint of its own options.
  pub begin-Configured :
      (t : DirectTunnel P) → begin P env role c local_addr now_ms ≡ ok t → Configured role t
  unfolding begin build
  begin-Configured t h = subst (Returned role) h (
      started-Returned role (build P env role c local_addr now_ms)
        (with_provider-Returned env.provider))
