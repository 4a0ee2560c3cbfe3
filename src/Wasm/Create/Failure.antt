-- ===== src/Wasm/Create/Failure.antt =====
-- crates/rtc-tunnel-wasm/src/lib.rs: `rtc_tunnel_create` returns a handle or leaves a message.
use rtc_tunnel.Base.{
  is_empty, sym, ℕ, ◌≡◌, refl, false, Option, none, some, is_some, ◌∷◌, Text, text, ok, err, ltb,
  if_holds,
}
use rtc_tunnel.Event.{TunnelResult, display, peer_connection, config}
use rtc_tunnel.Platform.{Platform}
use rtc_tunnel.Direct.State.{DirectTunnel}
use rtc_tunnel.Direct.Setup.{Surroundings}
use rtc_tunnel.Wasm.Abi.{str_arg}
use rtc_tunnel.Wasm.Create.{
  CreateArgs, addr_arg, need, Created, refused, finished_create, rtc_tunnel_create,
}

-- There is a handle exactly if there is no message.
abbrev pub Tells : {P : Platform} → Created P → Type 0
Tells r = is_some r.0 ≡ is_empty r.1

module _ (P : Platform)
    (nonempty : (c : ℕ) (s : Text) → is_empty (P.into_bytes (c ∷ s)) ≡ false) where
  refused-Tells : (c : ℕ) (s : Text) → Tells (refused P (c ∷ s))
  unfolding refused
  refused-Tells c s = sym (nonempty c s)

  finished-Tells : (r : TunnelResult (DirectTunnel P)) → Tells (finished_create P r)
  unfolding finished_create text display
  finished-Tells (ok t) = refl
  finished-Tells (err (config m)) = refused-Tells _ _
  finished-Tells (err (peer_connection m)) = refused-Tells _ _

  need-Tells :
      {A : Type 0} (o : Option A) (absent : Created P) (f : A → Created P)
      → Tells absent
      → ((a : A) → Tells (f a))
      → Tells (need o absent f)
  need-Tells none absent f h k = h
  need-Tells (some a) absent f h k = k a

  -- `rtc_tunnel_create` returns a handle exactly if it leaves no error message, where the bytes of a
  -- text that is not empty are not empty.
  pub create-Tells : (env : Surroundings) (a : CreateArgs) → Tells (rtc_tunnel_create P env a)
  unfolding rtc_tunnel_create text
  create-Tells env a = need-Tells (addr_arg P a.remote) _ _ (refused-Tells _ _) λ remote.
      need-Tells (addr_arg P a.local) _ _ (refused-Tells _ _) λ local.
        need-Tells (str_arg P a.ufrag) _ _ (refused-Tells _ _) λ ufrag.
          need-Tells (str_arg P a.pwd) _ _ (refused-Tells _ _) λ pwd.
            need-Tells (str_arg P a.fingerprint) _ _ (refused-Tells _ _) λ fingerprint.
              need-Tells (str_arg P a.fingerprint_algorithm) _ _ (refused-Tells _ _) λ algorithm.
                if_holds Tells (ltb 65535 a.sctp_port) (λ _. refused-Tells _ _)
                  λ _.
                    if_holds Tells (ltb 65534 a.stream_id) (λ _. refused-Tells _ _)
                      λ _. finished-Tells _
