-- ===== src/Host/Time.antt =====
-- scripts/wasm-std/time.rs: the instants and system times of `std` on bare wasm. A duration is its
-- number of nanoseconds, whose seconds fit 64 bits.
use rtc_tunnel.Base.{
  ℕ, ◌+◌, ◌-◌, ◌*◌, ◌^◌, ◌≤◌, ◌<◌, ◌≡◌, sym, subst, Bool-cases, inl, inr, Bool, Option, none, some,
  Result, ok, err, leb, if◌then◌else◌, arith,
}
use rtc_tunnel.Net.{Instant, from_millis}
use rtc_tunnel.Wasm.Abi.{Float, as_u64}

-- `Duration::MAX`
abbrev pub duration_max : ℕ
duration_max = (2 ^ 64 - 1) * 1_000_000_000 + 999_999_999

-- `checked_add` and `checked_sub` of `Duration`.
abbrev duration_add : ℕ → ℕ → Option ℕ
duration_add a b = if leb (a + b) duration_max then some (a + b) else none

abbrev duration_sub : ℕ → ℕ → Option ℕ
duration_sub a b = if leb b a then some (a - b) else none

-- `Instant::now`, from the import `now_micros`; `none` is the panic of other targets.
unfoldable pub instant_now : Bool → ℕ → Option Instant
instant_now wasm32 now_micros = if wasm32 then some (now_micros * 1000) else none

unfoldable pub checked_sub_instant : Instant → Instant → Option ℕ
checked_sub_instant a b = duration_sub a b

unfoldable pub checked_add_duration : Instant → ℕ → Option Instant
checked_add_duration a d = duration_add a d

unfoldable pub checked_sub_duration : Instant → ℕ → Option Instant
checked_sub_duration a d = duration_sub a d

-- `SystemTime`, a duration since the epoch.
abbrev pub SystemTime : Type 0
SystemTime = ℕ

abbrev unix_epoch : SystemTime
unix_epoch = 0

-- `SystemTime::now`, from the import `unix_millis`.
unfoldable pub system_now : Bool → Float → Option SystemTime
system_now wasm32 unix_millis = if wasm32 then some (from_millis (as_u64 unix_millis)) else none

-- `self.0.checked_sub(other.0).ok_or_else(|| other.0 - self.0)`
unfoldable pub sub_time : SystemTime → SystemTime → Result ℕ ℕ
sub_time a b = elim (duration_sub a b) [ some d ↦ ok d | none ↦ err (b - a) ]

unfoldable pub system_checked_add : SystemTime → ℕ → Option SystemTime
system_checked_add a d = duration_add a d

unfoldable pub system_checked_sub : SystemTime → ℕ → Option SystemTime
system_checked_sub a d = duration_sub a d

-- Which of two system times is the later, and that the duration between them leads back and forth.
abbrev pub Between : SystemTime → SystemTime → Result ℕ ℕ → Type 0
Between a b (ok d) = (b ≤ a) × (system_checked_add b d ≡ some a) × (system_checked_sub a d ≡ some b)
Between a b (err d) =
    (a < b) × (system_checked_add a d ≡ some b) × (system_checked_sub b d ≡ some a)

-- `sub_time` of two system times is `Ok` if the first is not earlier and `Err` if it is, and either
-- way the duration, added to the earlier time, gives the later, and taken from the later gives the
-- earlier.
pub sub_time-Between :
    (a b : SystemTime) → a ≤ duration_max → b ≤ duration_max → Between a b (sub_time a b)
unfolding sub_time system_checked_add system_checked_sub
sub_time-Between a b p q = elim (Bool-cases (leb b a)) [
  | inl later ↦
      let e : sub_time a b ≡ ok (a - b) = ground arith in
      subst (Between a b) (sym e) (ground arith, ground arith, ground arith)
  | inr earlier ↦
      let e : sub_time a b ≡ err (b - a) = ground arith in
      subst (Between a b) (sym e) (ground arith, ground arith, ground arith)
]
