-- ===== src/Host/Entropy.antt =====
-- crates/rtc-tunnel-wasm/src/entropy.rs and scripts/wasm-std/random.rs: random bytes from the import
-- `fill_random`, by the three ways that the crates and `std` take.
use rtc_tunnel.Base.{
  ℕ, ◌+◌, ◌*◌, ◌%◌, ◌^◌, ◌≡◌, ◌↔◌, ◌⊎◌, refl, Bool, true, Option, none, some, [], ◌∷◌, Bytes,
  Result, ok, err, ◌==◌, if◌then◌else◌, take, drop, arith, Bool-cases, inl, inr,
}

-- The import: for a length, the bytes that it leaves in the buffer and the count that it returns.
abbrev pub FillRandom : Type 0
FillRandom = ℕ → Bytes × ℕ

-- `as u32`
abbrev as_u32 : ℕ → ℕ
as_u32 n = n % 2 ^ 32

module _ (fill_random : FillRandom) where
  -- `host_fill`, with what it leaves in the buffer.
  unfoldable pub host_fill : ℕ → Bytes × Bool
  host_fill len =
      if len == 0
      then ([], true)
      else let (bytes, written) = fill_random len in (bytes, written == as_u32 len)

  -- `__getrandom_custom`
  unfoldable pub getrandom_custom : ℕ → Bytes × ℕ
  getrandom_custom len = let (bytes, filled) = host_fill len in (bytes, if filled then 0 else 1)

  -- `__getrandom_v03_custom`: the error is `new_custom(1)`.
  unfoldable pub getrandom_v03_custom : ℕ → Bytes × Result ℕ (Unit {0})
  getrandom_v03_custom len =
      let (bytes, filled) = host_fill len in (bytes, if filled then ok tt else err 1)

  -- `fill_bytes` of `std`; `none` is the panic.
  unfoldable pub fill_bytes : Bool → ℕ → Option Bytes
  fill_bytes wasm32 len =
      if wasm32
      then (if len == 0
          then some []
          else let (bytes, written) = fill_random len in
            if written == as_u32 len then some bytes else none)
      else none

  -- `u64::from_ne_bytes`, the target being little-endian.
  unfoldable pub from_ne_bytes : Bytes → ℕ
  from_ne_bytes [] = 0
  from_ne_bytes (b ∷ bs) = b + 256 * from_ne_bytes bs

  abbrev keys_of : Option Bytes → Option (ℕ × ℕ)
  keys_of none = none
  keys_of (some buf) = some (from_ne_bytes (take 8 buf), from_ne_bytes (drop 8 buf))

  -- `hashmap_random_keys`; elsewhere than on wasm the two addresses are the keys.
  unfoldable pub hashmap_random_keys : Bool → ℕ × ℕ → Option (ℕ × ℕ)
  hashmap_random_keys wasm32 addresses =
      if wasm32 then keys_of (fill_bytes true 16) else some addresses

  -- What the three ways make of the import's answer.
  pub record Agree (len : ℕ) (bytes : Bytes) (filled : Bool) : Type 0 where
    pub custom : getrandom_custom len ≡ (bytes, if filled then 0 else 1)
    pub v03 : getrandom_v03_custom len ≡ (bytes, if filled then ok tt else err 1)
    pub std : fill_bytes true len ≡ (if filled then some bytes else none)

  -- The two backends of getrandom and `std` take the same bytes from the host, and all three succeed
  -- or all three fail: getrandom 0.2 returns zero, getrandom 0.4 returns `Ok` and `std` does not panic
  -- exactly if the length is zero or the host reports that many bytes.
  pub entropy_agrees :
      (len : ℕ)
      → Agree len (host_fill len).0 (host_fill len).1
        × (((host_fill len).1 ≡ true) ↔ ((len ≡ 0) ⊎ ((fill_random len).1 ≡ len % 2 ^ 32)))
  unfolding host_fill getrandom_custom getrandom_v03_custom fill_bytes
  entropy_agrees len = (
    record { custom = refl; v03 = refl; std = ground arith },
    (
      λ h. elim (Bool-cases (len == 0)) [ inl e ↦ inl (ground arith) | inr e ↦ inr (ground arith) ],
      λ h. elim h [ inl e ↦ ground arith | inr e ↦ ground arith ],
    ),
  )
