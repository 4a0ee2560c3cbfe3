-- ===== src/Wasm/Refine/Safety.antt =====
-- crates/rtc-tunnel-wasm/src/lib.rs: what holds of the tunnel holds through the C ABI.
use rtc_tunnel.Base.{ap, ◌∙◌, ℕ, ◌≡◌, sym, refl, subst, true, some, is_some, List, ok}
use rtc_tunnel.Net.{SocketAddr}
use rtc_tunnel.Config.{TunnelConfig}
use rtc_tunnel.Platform.{Platform}
use rtc_tunnel.Direct.State.{DirectTunnel, Role}
use rtc_tunnel.Direct.Setup.{Surroundings, begin}
use rtc_tunnel.Direct.Host.{start}
use rtc_tunnel.Direct.Host.Safety.{run_open_secured}
use rtc_tunnel.Wasm.Handle.{TunnelHandle}
use rtc_tunnel.Wasm.Refine.{AbiCall, all_on_tunnel, call_all, call_all-Mirrors}

-- What an open tunnel has.
abbrev pub Secured : {P : Platform} → DirectTunnel P → Type 0
Secured t =
    (t.dtls_connected ≡ true)
    × (t.sctp_connected ≡ true)
    × (t.channel_dialed ≡ true)
    × (is_some t.association ≡ true)

module _ {P : Platform} (env : Surroundings) (role : Role) (c : TunnelConfig)
    (local_addr : SocketAddr) (now_ms : ℕ) (h : TunnelHandle P)
    (constructed : begin P env role c local_addr now_ms ≡ ok h.tunnel) where
  -- After any calls through the C ABI on a handle of a tunnel just constructed, an open tunnel has DTLS
  -- and SCTP connected, its channel dialed and its association held.
  pub abi_open_secured :
      (place : ℕ → ℕ) (cs : List AbiCall) (o : TunnelHandle P)
      → call_all place cs (some h) ≡ some o
      → o.tunnel.opened ≡ true
      → (o.tunnel.dtls_connected ≡ true)
        × (o.tunnel.sctp_connected ≡ true)
        × (o.tunnel.channel_dialed ≡ true)
        × (is_some o.tunnel.association ≡ true)
  abi_open_secured place cs o e is_open =
      let m = call_all-Mirrors place cs h (start h.tunnel) refl in
      let same : m.0 ≡ o = cc (m.1) in
      let mirrored = sym (ap (λ (x : TunnelHandle P). x.tunnel) same) ∙ m.2 in
      let safe =
        run_open_secured env role c local_addr now_ms h.tunnel constructed (all_on_tunnel cs) in
      subst Secured (sym mirrored)
        (safe (ap (λ (t : DirectTunnel P). t.opened) (sym mirrored) ∙ is_open))
