-- ===== src/Wasm/Handle.antt =====
-- crates/rtc-tunnel-wasm/src/lib.rs: the handle and the functions that pass a call on to its tunnel.
pub mod Cipher
use rtc_tunnel.Base.{
  ℕ, Bool, false, Option, none, some, is_some, List, Bytes, Text, length, flag, if◌then◌else◌, ◌==◌,
  [],
}
use rtc_tunnel.Event.{Event}
use rtc_tunnel.Platform.{Platform}
use rtc_tunnel.Direct.State.{DirectTunnel}
use rtc_tunnel.Direct.Input.{receive, receive_deferred, finish_input_batch, tick}
use rtc_tunnel.Direct.Output.{
  send, close, next_deadline, set_send_buffer_cap, buffered_bytes, negotiated_cipher_suite,
}
use rtc_tunnel.Wasm.Abi.{
  Float, reading, slice_from, send_code, send_not_open, minus_one, or_minus_one, as_f64, copied,
}

pub record TunnelHandle (P : Platform) : Type 0 where
  pub tunnel : DirectTunnel P
  pub offer : Bytes
  pub event_kind : ℕ
  pub event_payload : Bytes
  pub event_reason : ℕ
  pub drained : List Event
  pub descriptors : List ℕ
  pub cipher : Option Bytes

abbrev name_bytes : Platform → Option Text → Option Bytes
name_bytes P none = none
name_bytes P (some name) = some (P.into_bytes name)

abbrev name_length : Option Bytes → ℕ
name_length none = 0
name_length (some name) = length name

abbrev name_copied : ℕ → Option Bytes → Bytes
name_copied size none = []
name_copied size (some name) = copied false size name

module _ {P : Platform} where
  -- A function of the handle that is a no-op on a null pointer.
  abbrev pub on_handle :
      (TunnelHandle P → TunnelHandle P) → Option (TunnelHandle P) → Option (TunnelHandle P)
  on_handle f none = none
  on_handle f (some h) = some (f h)

  -- A function that reads the handle, with its answer for a null pointer.
  abbrev pub read_handle : {A : Type 0} → A → (TunnelHandle P → A) → Option (TunnelHandle P) → A
  read_handle absent f none = absent
  read_handle absent f (some h) = f h

  unfoldable pub rtc_tunnel_input :
      Float → Option Bytes → Option (TunnelHandle P) → Option (TunnelHandle P)
  rtc_tunnel_input now_ms bytes =
      on_handle λ h. record h { tunnel = receive (reading now_ms) (slice_from bytes) h.tunnel }

  unfoldable pub rtc_tunnel_input_deferred :
      Float → Option Bytes → Option (TunnelHandle P) → Option (TunnelHandle P)
  rtc_tunnel_input_deferred now_ms bytes =
      on_handle
        λ h. record h { tunnel = receive_deferred (reading now_ms) (slice_from bytes) h.tunnel }

  unfoldable pub rtc_tunnel_finish_input_batch : Option (TunnelHandle P) → Option (TunnelHandle P)
  rtc_tunnel_finish_input_batch = on_handle λ h. record h { tunnel = finish_input_batch h.tunnel }

  unfoldable pub rtc_tunnel_tick : Float → Option (TunnelHandle P) → Option (TunnelHandle P)
  rtc_tunnel_tick now_ms = on_handle λ h. record h { tunnel = tick (reading now_ms) h.tunnel }

  unfoldable pub rtc_tunnel_send :
      Option Bytes → Option (TunnelHandle P) → ℕ × Option (TunnelHandle P)
  rtc_tunnel_send bytes none = (send_not_open, none)
  rtc_tunnel_send bytes (some h) =
      let (result, tunnel) = send (slice_from bytes) h.tunnel in
      (send_code result, some (record h { tunnel = tunnel }))

  unfoldable rtc_tunnel_next_deadline : Option (TunnelHandle P) → Float
  rtc_tunnel_next_deadline = read_handle minus_one λ h. or_minus_one (next_deadline h.tunnel)

  unfoldable rtc_tunnel_is_open : Option (TunnelHandle P) → ℕ
  rtc_tunnel_is_open = read_handle 0 λ h. flag h.tunnel.opened

  unfoldable rtc_tunnel_is_finished : Option (TunnelHandle P) → ℕ
  rtc_tunnel_is_finished = read_handle 1 λ h. flag h.tunnel.finished

  unfoldable rtc_tunnel_dropped_datagrams : Option (TunnelHandle P) → Float
  rtc_tunnel_dropped_datagrams = read_handle (as_f64 0) λ h. as_f64 h.tunnel.dropped_datagrams

  unfoldable pub rtc_tunnel_close : Option (TunnelHandle P) → Option (TunnelHandle P)
  rtc_tunnel_close = on_handle λ h. record h { tunnel = close h.tunnel }

  unfoldable pub rtc_tunnel_set_send_buffer_cap :
      ℕ → Option (TunnelHandle P) → Option (TunnelHandle P)
  rtc_tunnel_set_send_buffer_cap cap =
      on_handle λ h. record h { tunnel = set_send_buffer_cap cap h.tunnel }

  unfoldable rtc_tunnel_offer_len : Option (TunnelHandle P) → ℕ
  rtc_tunnel_offer_len = read_handle 0 λ h. length h.offer

  unfoldable rtc_tunnel_offer_copy : Bool → ℕ → Option (TunnelHandle P) → Bytes
  rtc_tunnel_offer_copy is_null cap = read_handle [] λ h. copied is_null cap h.offer

  unfoldable rtc_tunnel_buffered_bytes : Option (TunnelHandle P) → Float
  rtc_tunnel_buffered_bytes = read_handle (as_f64 0) λ h. as_f64 (buffered_bytes h.tunnel)

  -- The `match` of `rtc_tunnel_stage_ms` on the stage's number.
  unfoldable stage : ℕ → DirectTunnel P → Option ℕ
  stage n t =
      if n == 0
      then some t.trace.start_ms
      else if n == 1
      then t.trace.ice_ms
      else if n == 2
      then t.trace.dtls_ms
      else if n == 3
      then t.trace.sctp_ms
      else if n == 4
      then t.trace.opened_ms
      else none

  unfoldable rtc_tunnel_stage_ms : ℕ → Option (TunnelHandle P) → Float
  rtc_tunnel_stage_ms n = read_handle minus_one λ h. or_minus_one (stage n h.tunnel)

  -- `cipher_name`: the name is looked up until there is one, and kept from then on.
  unfoldable pub cipher_name : TunnelHandle P → Option Bytes × TunnelHandle P
  cipher_name h =
      let cipher =
        if is_some h.cipher then h.cipher else name_bytes P (negotiated_cipher_suite h.tunnel) in
      (cipher, record h { cipher = cipher })

  unfoldable pub rtc_tunnel_cipher_len : Option (TunnelHandle P) → ℕ × Option (TunnelHandle P)
  rtc_tunnel_cipher_len none = (0, none)
  rtc_tunnel_cipher_len (some h) = let (name, h') = cipher_name h in (name_length name, some h')

  unfoldable pub rtc_tunnel_cipher_copy :
      Bool → ℕ → Option (TunnelHandle P) → Bytes × Option (TunnelHandle P)
  rtc_tunnel_cipher_copy is_null cap none = ([], none)
  rtc_tunnel_cipher_copy is_null cap (some h) =
      if is_null
      then ([], some h)
      else let (name, h') = cipher_name h in (name_copied cap name, some h')
