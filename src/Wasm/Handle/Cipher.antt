-- ===== src/Wasm/Handle/Cipher.antt =====
-- crates/rtc-tunnel-wasm/src/lib.rs: the cipher suite's name is kept once it is known.
use rtc_tunnel.Base.{
  ℕ, ◌≡◌, ◌∙◌, ap, false, Option, none, some, is_some, Bytes, arith, length, min, length-take,
  if-true,
}
use rtc_tunnel.Platform.{Platform}
use rtc_tunnel.Direct.State.{DirectTunnel}
use rtc_tunnel.Wasm.Abi.{copied}
use rtc_tunnel.Wasm.Handle.{
  TunnelHandle, cipher_name, name_length, name_copied, rtc_tunnel_cipher_len,
  rtc_tunnel_cipher_copy,
}

module _ {P : Platform} where
  -- Once a call has found the cipher suite's name, every later call answers with it, whatever has
  -- become of the tunnel since.
  pub cipher_name-kept :
      (h : TunnelHandle P) (t : DirectTunnel P) (name : Bytes)
      → (cipher_name h).0 ≡ some name
      → (cipher_name (record (cipher_name h).1 { tunnel = t })).0 ≡ some name
  unfolding cipher_name
  cipher_name-kept h t name e = if-true _ _ (ap is_some e) ∙ e

  -- `rtc_tunnel_cipher_copy` writes as many bytes as `rtc_tunnel_cipher_len` said, or as many as the
  -- buffer holds if that is less.
  pub length-cipher_copy :
      (size : ℕ) (h : TunnelHandle P)
      → length (rtc_tunnel_cipher_copy false size (some h)).0
        ≡ min size (rtc_tunnel_cipher_len (some h)).0
  unfolding rtc_tunnel_cipher_copy rtc_tunnel_cipher_len copied
  length-cipher_copy size h = go (cipher_name h).0
    where
      go : (o : Option Bytes) → length (name_copied size o) ≡ min size (name_length o)
      go none = omega arith
      go (some name) = length-take size name
