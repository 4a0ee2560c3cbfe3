-- ===== src/Net.antt =====
-- The parts of `std::net` and `std::time` that the tunnel uses. An `Instant` is a number of
-- nanoseconds, as scripts/wasm-std/time.rs builds it on bare wasm: it cannot go below zero.
use rtc_tunnel.Base.{
  ℕ, ◌-◌, ◌*◌, ◌/◌, ◌%◌, ◌^◌, Bool, true, false, Option, none, some, ◌==◌, leb, if◌then◌else◌,
}

-- An address is its 32 or 128 bits as a number.
pub data IpAddr : Type 0 where
  v4 : ℕ → IpAddr
  v6 : ℕ → IpAddr

pub record SocketAddr : Type 0 where
  pub ip : IpAddr
  pub port : ℕ

abbrev ip_is_v4 : IpAddr → Bool
ip_is_v4 (v4 _) = true
ip_is_v4 (v6 _) = false

unfoldable pub is_ipv4 : SocketAddr → Bool
is_ipv4 a = ip_is_v4 a.ip

unfoldable pub is_unspecified : IpAddr → Bool
is_unspecified (v4 n) = n == 0
is_unspecified (v6 n) = n == 0

abbrev pub Instant : Type 0
Instant = ℕ

-- `Duration::from_millis`
abbrev pub from_millis : ℕ → ℕ
from_millis ms = ms * 1_000_000

abbrev pub checked_sub_duration : Instant → ℕ → Option Instant
checked_sub_duration t d = if leb d t then some (t - d) else none

-- `t.saturating_duration_since(epoch).as_millis() as u64`
abbrev pub millis_since : Instant → Instant → ℕ
millis_since epoch t = (t - epoch) / 1_000_000 % 2 ^ 64
