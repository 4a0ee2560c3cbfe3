-- ===== src/Wasm/Memory/Safety.antt =====
-- crates/rtc-tunnel-wasm/src/lib.rs: what a host of several tunnels may rely on for each.
use rtc_tunnel.Base.{ℕ, ◌≡◌, refl, ◌∙◌, sym, ap, subst, true, some, is_some, List, ok}
use rtc_tunnel.Net.{SocketAddr}
use rtc_tunnel.Config.{TunnelConfig}
use rtc_tunnel.Platform.{Platform}
use rtc_tunnel.Direct.State.{DirectTunnel, Role}
use rtc_tunnel.Direct.Setup.{Surroundings, begin}
use rtc_tunnel.Direct.Host.{start}
use rtc_tunnel.Direct.Host.Safety.{run_open_secured}
use rtc_tunnel.Wasm.Handle.{TunnelHandle}
use rtc_tunnel.Wasm.Refine.Safety.{Secured}
use rtc_tunnel.Wasm.Memory.{Allocator, Memory, MemoryCall, run_all, AllRightful}
use rtc_tunnel.Wasm.Memory.Sound.{IsSound}
use rtc_tunnel.Wasm.Memory.Isolation.{all_at_pointer, AllSpare, run_all-Mirrors}

module _ {M : Allocator} {P : Platform} (env : Surroundings) (role : Role) (c : TunnelConfig)
    (local_addr : SocketAddr) (now_ms : ℕ) (h : TunnelHandle P)
    (constructed : begin P env role c local_addr now_ms ≡ ok h.tunnel) where
  -- However the host interleaves its calls on the tunnels of a module, while it frees no address of a
  -- handle and does not destroy the tunnel at `p`, which was just constructed, that tunnel has DTLS and
  -- SCTP connected, its channel dialed and its association held once it is open.
  pub run_all_open_secured :
      (place : ℕ → ℕ) (p : ℕ) (cs : List MemoryCall) (m : Memory M P) (o : TunnelHandle P)
      → AllRightful place cs m
      → AllSpare p cs
      → IsSound m
      → m.handles p ≡ some h
      → (run_all place cs m).handles p ≡ some o
      → o.tunnel.opened ≡ true
      → (o.tunnel.dtls_connected ≡ true)
        × (o.tunnel.sctp_connected ≡ true)
        × (o.tunnel.channel_dialed ≡ true)
        × (is_some o.tunnel.association ≡ true)
  run_all_open_secured place p cs m o rightful spared sound here there is_open =
      let r = run_all-Mirrors place p cs m (start h.tunnel) rightful spared sound (h, here, refl) in
      let same : r.0 ≡ o = cc (r.1, there) in
      let mirrored = sym (ap (λ (x : TunnelHandle P). x.tunnel) same) ∙ r.2 in
      subst Secured (sym mirrored) (
        run_open_secured env role c local_addr now_ms h.tunnel constructed (all_at_pointer p cs)
          (ap (λ (t : DirectTunnel P). t.opened) (sym mirrored) ∙ is_open))
