-- ===== src/Wasm/Abi.antt =====
-- crates/rtc-tunnel-wasm/src/lib.rs: constants, arguments and results as they cross the boundary.
-- A pointer with its length is the bytes there, or `none` if it is null; a handle that may be null
-- is an option.
pub mod Readings
use rtc_tunnel.Base.{
  ℕ, ◌-◌, ◌^◌, min, Bool, true, false, Option, none, some, [], Bytes, Text, take, ltb, ◌||◌,
  if◌then◌else◌,
}
use rtc_tunnel.Event.{
  CloseReason, local, remote, timeout, failure, SendResult, accepted, backpressure, too_large,
  not_open,
}
use rtc_tunnel.Platform.{Platform}

abbrev pub event_none : ℕ
event_none = 0

abbrev pub event_datagram : ℕ
event_datagram = 1

abbrev pub event_opened : ℕ
event_opened = 2

abbrev pub event_message : ℕ
event_message = 3

abbrev pub event_closed : ℕ
event_closed = 4

abbrev send_accepted : ℕ
send_accepted = 0

abbrev send_backpressure : ℕ
send_backpressure = 1

abbrev pub send_not_open : ℕ
send_not_open = 2

abbrev send_too_large : ℕ
send_too_large = 3

abbrev abi_version : ℕ
abi_version = 1

unfoldable rtc_tunnel_abi_version : ℕ
rtc_tunnel_abi_version = abi_version

-- The `match` of `rtc_tunnel_send`.
unfoldable pub send_code : SendResult → ℕ
send_code accepted = send_accepted
send_code backpressure = send_backpressure
send_code too_large = send_too_large
send_code not_open = send_not_open

unfoldable pub close_reason_code : CloseReason → ℕ
close_reason_code local = 0
close_reason_code remote = 1
close_reason_code timeout = 2
close_reason_code failure = 3

-- An `f64` as far as the code reads it: the magnitude's whole part, and whether a fraction follows.
pub data Float : Type 0 where
  nan infinity minus_infinity : Float
  positive : ℕ → Bool → Float
  negative : ℕ → Bool → Float

abbrev u64_max : ℕ
u64_max = 2 ^ 64 - 1

-- `x as u64`
unfoldable pub as_u64 : Float → ℕ
as_u64 nan = 0
as_u64 infinity = u64_max
as_u64 minus_infinity = 0
as_u64 (positive n _) = min n u64_max
as_u64 (negative _ _) = 0

-- `x.max(0.0)`
unfoldable pub max_zero : Float → Float
max_zero nan = positive 0 false
max_zero infinity = infinity
max_zero minus_infinity = positive 0 false
max_zero (positive n f) = positive n f
max_zero (negative _ _) = positive 0 false

-- `now_ms.max(0.0) as u64`
unfoldable pub reading : Float → ℕ
reading x = as_u64 (max_zero x)

-- `x > 0.0`
unfoldable pub is_positive : Float → Bool
is_positive (positive n f) = ltb 0 n || f
is_positive infinity = true
is_positive nan = false
is_positive minus_infinity = false
is_positive (negative _ _) = false

-- `n as f64`, exact below 2^53.
abbrev pub as_f64 : ℕ → Float
as_f64 n = positive n false

abbrev pub minus_one : Float
minus_one = negative 1 false

abbrev pub or_minus_one : Option ℕ → Float
or_minus_one none = minus_one
or_minus_one (some n) = as_f64 n

unfoldable pub slice_from : Option Bytes → Bytes
slice_from none = []
slice_from (some bytes) = bytes

unfoldable pub str_arg : Platform → Option Bytes → Option Text
str_arg P none = none
str_arg P (some bytes) = P.from_utf8 bytes

-- The bytes that a `*_copy` function writes to a buffer of `cap` bytes; it returns their number.
unfoldable pub copied : Bool → ℕ → Bytes → Bytes
copied is_null cap source = if is_null then [] else take cap source
