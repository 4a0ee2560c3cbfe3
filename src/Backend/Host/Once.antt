-- ===== src/Backend/Host/Once.antt =====
-- crates/rtc-tunnel-core/src/tunnel.rs: from construction on, `Opened` and `Closed` come once.
use rtc_tunnel.Base.{
  ℕ, ◌+◌, ◌≡◌, subst, Bool, true, false, ◌⊎◌, inl, inr, List, text, Text, ok, err, done, fail,
  Outcome, after, flag, arith, ltb, is_empty, differ, ◌||◌, if_holds,
}
use rtc_tunnel.Net.{SocketAddr, Instant, is_ipv4, is_unspecified, from_millis}
use rtc_tunnel.Config.{TunnelConfig}
use rtc_tunnel.Str.{trim}
use rtc_tunnel.Event.{TunnelError, TunnelResult}
use rtc_tunnel.Event.Count.{opens, closes}
use rtc_tunnel.Direct.Setup.{and_then, built, Surroundings, epoch_of}
use rtc_tunnel.Backend.Peer.{Peer}
use rtc_tunnel.Backend.State.{Tunnel, drain}
use rtc_tunnel.Backend.Calls.{apply_remote_answer}
use rtc_tunnel.Backend.Keeps.{drain-Keeps}
use rtc_tunnel.Backend.Keeps.Calls.{applied-Keeps}
use rtc_tunnel.Backend.Setup.{
  initial, construct, offerer, answerer, answered, new, or_peer, channel_init, settings,
  remote_answer_sdp,
}
use rtc_tunnel.Backend.Host.{
  Call, start, history, run, Announced, Keeps-Announced, run-Announced, Returns,
}

built-Returns :
    {S A : Type 0} (Holds : S → Type 0) (m : Outcome TunnelError S A)
    → Holds (after m)
    → Returns Holds (built m)
built-Returns Holds (done a s) h = h
built-Returns Holds (fail e s) h = tt

-- One `Closed` is queued if the tunnel has finished and none if not, and likewise `Opened`.
abbrev pub Fresh : {P : Peer} → Tunnel P → Type 0
Fresh t = Announced t.events t

module _ (P : Peer) (env : Surroundings) (c : TunnelConfig) (local_addr : SocketAddr)
    (now_ms : ℕ) where
  initial-Fresh :
      (epoch : Instant) (handle : P.ChannelId) (pc : P.Connection)
      → Fresh (drain (initial P c local_addr now_ms epoch handle pc))
  unfolding initial
  initial-Fresh epoch handle pc =
      let k = drain-Keeps (initial P c local_addr now_ms epoch handle pc) in
      (omega (arith, k.closes_once), omega (arith, k.opens_once))

  readied-Fresh :
      (epoch : Instant) (handle : P.ChannelId) (r : TunnelResult P.Connection)
      → Returns
          (Fresh {P = P})
          (and_then r λ pc. ok (drain (initial P c local_addr now_ms epoch handle pc)))
  readied-Fresh epoch handle (ok pc) = initial-Fresh epoch handle pc
  readied-Fresh epoch handle (err e) = tt

  module _ (prepare : P.Connection → TunnelResult P.Connection) (epoch : Instant) where
    channel-Fresh :
        (r : TunnelResult (P.ChannelId × P.Connection))
        → Returns (Fresh {P = P}) (
            and_then r λ channel.
              and_then
                (prepare channel.1)
                λ pc. ok (drain (initial P c local_addr now_ms epoch channel.0 pc)))
    channel-Fresh (ok channel) = readied-Fresh epoch channel.0 (prepare channel.1)
    channel-Fresh (err e) = tt

    connection-Fresh :
        (r : TunnelResult P.Connection)
        → Returns (Fresh {P = P}) (
            and_then r λ pc0.
              and_then
                (or_peer (P.create_data_channel (text "relay") (channel_init c) pc0))
                λ channel.
                  and_then
                    (prepare channel.1)
                    λ pc. ok (drain (initial P c local_addr now_ms epoch channel.0 pc)))
    connection-Fresh (ok pc0) =
        channel-Fresh (or_peer (P.create_data_channel (text "relay") (channel_init c) pc0))
    connection-Fresh (err e) = tt

  construct-Fresh :
      (server : Bool) (prepare : Instant → P.Connection → TunnelResult P.Connection)
      → Returns Fresh (construct P server prepare env c local_addr now_ms)
  unfolding construct
  construct-Fresh server prepare =
      let epoch = epoch_of env now_ms in
      let now = epoch + from_millis now_ms in
      connection-Fresh (prepare now) epoch (or_peer (P.build (settings P server c) now))

  offerer-Fresh : Returns Fresh (offerer P env c local_addr now_ms)
  unfolding offerer
  offerer-Fresh =
      if_holds (Returns Fresh) (ltb 65534 c.stream_id) (λ _. tt) (λ _. construct-Fresh false _)

  answerer-Fresh : (sdp : Text) → Returns Fresh (answerer P env c local_addr sdp now_ms)
  unfolding answerer
  answerer-Fresh sdp =
      if_holds (Returns Fresh) (ltb 65534 c.stream_id) (λ _. tt) (λ _. construct-Fresh true _)

  described-Fresh :
      (u : Tunnel P) (r : TunnelResult P.Description)
      → Fresh u
      → Returns Fresh (and_then r λ answer. built (apply_remote_answer answer u))
  unfolding apply_remote_answer
  described-Fresh u (err e) a = tt
  described-Fresh u (ok answer) a =
      let r = P.set_remote_description u.last_now answer u.pc in
      built-Returns Fresh (apply_remote_answer answer u)
        (Keeps-Announced (start u) (after (apply_remote_answer answer u)) (applied-Keeps r u) a)

  answered-Fresh : (u : Tunnel P) → Fresh u → Returns Fresh (answered P c u)
  unfolding answered
  answered-Fresh u a = described-Fresh u (or_peer (P.answer_description (remote_answer_sdp P c))) a

  chained-Fresh :
      (r : TunnelResult (Tunnel P)) → Returns Fresh r → Returns Fresh (and_then r (answered P c))
  chained-Fresh (ok u) a = answered-Fresh u a
  chained-Fresh (err e) a = tt

  new-Fresh : Returns Fresh (new P env c local_addr now_ms)
  unfolding new
  new-Fresh =
      if_holds (Returns Fresh) (is_unspecified c.remote.ip) (λ _. tt)
        λ _.
          if_holds (Returns Fresh) (differ (is_ipv4 c.remote) (is_ipv4 local_addr)) (λ _. tt)
            λ _.
              if_holds (Returns Fresh) (is_empty (trim c.remote_fingerprint)) (λ _. tt)
                λ _.
                  if_holds (Returns Fresh) (is_empty c.ice_ufrag || is_empty c.ice_pwd) (λ _. tt)
                    λ _.
                      if_holds (Returns Fresh) (ltb 65534 c.stream_id) (λ _. tt)
                        λ _. chained-Fresh (offerer P env c local_addr now_ms) offerer-Fresh

  -- One of the three constructors returned the tunnel.
  abbrev Constructed : Text → Tunnel P → Type 0
  Constructed sdp t =
      (offerer P env c local_addr now_ms ≡ ok t)
      ⊎ (answerer P env c local_addr sdp now_ms ≡ ok t)
      ⊎ (new P env c local_addr now_ms ≡ ok t)

  Constructed-Fresh : (sdp : Text) (t : Tunnel P) → Constructed sdp t → Fresh t
  Constructed-Fresh sdp t (inl h) = subst (Returns Fresh) h offerer-Fresh
  Constructed-Fresh sdp t (inr (inl h)) = subst (Returns Fresh) h (answerer-Fresh sdp)
  Constructed-Fresh sdp t (inr (inr h)) = subst (Returns Fresh) h new-Fresh

  -- From construction on, by any of the three constructors, whatever the host calls, the events handed
  -- over and still queued hold one `Closed` if the tunnel over the peer connection has finished and
  -- none if it has not, and likewise one `Opened` or none.
  pub backend_announces_once :
      (sdp : Text) (t : Tunnel P)
      → Constructed sdp t
      → (calls : List (Call P))
      → (closes (history (run calls (start t))) ≡ flag (run calls (start t)).tunnel.finished)
        × (opens (history (run calls (start t))) ≡ flag (run calls (start t)).tunnel.opened)
  backend_announces_once sdp t h calls = run-Announced calls (start t) (Constructed-Fresh sdp t h)
