-- ===== src/Event.antt =====
-- crates/rtc-tunnel-core/src/event.rs, error.rs and the constants of lib.rs.
pub mod Count
use rtc_tunnel.Base.{ℕ, ◌*◌, Option, none, some, Bytes, Text, Result, text, ◌++◌}

pub data CloseReason : Type 0 where
  local remote timeout failure : CloseReason

pub data Event : Type 0 where
  send_datagram : Bytes → Event
  opened : Event
  message : Bytes → Event
  closed : CloseReason → Event

pub data SendResult : Type 0 where
  accepted backpressure too_large not_open : SendResult

-- `peer_connection` is the variant of the `rtc-backend` feature, with the error's text.
pub data TunnelError : Type 0 where
  peer_connection : Text → TunnelError
  config : Text → TunnelError

-- `Display for TunnelError`
unfoldable pub display : TunnelError → Text
display (peer_connection e) = text "peer connection error: " ++ e
display (config m) = text "invalid tunnel config: " ++ m

-- `Error::source`: the error of the engine, with its text.
unfoldable source : TunnelError → Option Text
source (peer_connection e) = some e
source (config m) = none

abbrev pub TunnelResult : Type 0 → Type 0
TunnelResult A = Result TunnelError A

-- `DEFAULT_SEND_BUFFER_CAP`
abbrev pub default_send_buffer_cap : ℕ
default_send_buffer_cap = 1024 * 1024

-- `MAX_MESSAGE_SIZE`
abbrev pub max_message_size : ℕ
max_message_size = 262144
