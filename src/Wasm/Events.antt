-- ===== src/Wasm/Events.antt =====
-- crates/rtc-tunnel-wasm/src/lib.rs: events pulled one at a time, or many with their descriptors.
pub mod Agree
use rtc_tunnel.Base.{ℕ, suc, zero, ◌+◌, ◌/◌, Option, none, some, List, [], ◌∷◌, ◌++◌, Bytes, length}
use rtc_tunnel.Event.{Event, send_datagram, opened, message, closed}
use rtc_tunnel.Platform.{Platform}
use rtc_tunnel.Direct.State.{DirectTunnel}
use rtc_tunnel.Direct.Output.{poll_event}
use rtc_tunnel.Wasm.Abi.{
  event_none, event_datagram, event_opened, event_message, event_closed, close_reason_code,
}
use rtc_tunnel.Wasm.Handle.{TunnelHandle, on_handle, read_handle}

-- The `match` of `rtc_tunnel_poll_event` on what the tunnel yields.
unfoldable pub show_event : {P : Platform} → Option Event → TunnelHandle P → ℕ × TunnelHandle P
show_event none h = (event_none, h)
show_event (some (send_datagram bytes)) h =
    (event_datagram, record h { event_payload = bytes; event_kind = event_datagram })
show_event (some opened) h = (event_opened, record h { event_kind = event_opened })
show_event (some (message bytes)) h =
    (event_message, record h { event_payload = bytes; event_kind = event_message })
show_event (some (closed reason)) h =
    (event_closed, record h { event_reason = close_reason_code reason; event_kind = event_closed })

-- The four words of an event's descriptor, with the address of its payload.
pub descriptor : ℕ → Event → List ℕ
descriptor ptr (send_datagram bytes) = event_datagram ∷ ptr ∷ length bytes ∷ 0 ∷ []
descriptor ptr opened = event_opened ∷ 0 ∷ 0 ∷ 0 ∷ []
descriptor ptr (message bytes) = event_message ∷ ptr ∷ length bytes ∷ 0 ∷ []
descriptor ptr (closed reason) = event_closed ∷ 0 ∷ 0 ∷ close_reason_code reason ∷ []

-- The `for` loop of `rtc_tunnel_drain_events`; `place i` is where the payload of event `i` lies.
pub describe : (ℕ → ℕ) → ℕ → List Event → List ℕ
describe place i [] = []
describe place i (e ∷ es) = descriptor (place i) e ++ describe place (suc i) es

module _ {P : Platform} where
  -- The handle with its last event cleared and the tunnel after the poll, showing the event.
  unfoldable pub shown : TunnelHandle P → Option Event × DirectTunnel P → ℕ × TunnelHandle P
  shown h (event, tunnel) =
      show_event event (record h {
        tunnel = tunnel;
        event_kind = event_none;
        event_payload = [];
        event_reason = 0;
      })

  unfoldable pub polled_event : TunnelHandle P → ℕ × TunnelHandle P
  polled_event h = shown h (poll_event h.tunnel)

  unfoldable pub rtc_tunnel_poll_event : Option (TunnelHandle P) → ℕ × Option (TunnelHandle P)
  rtc_tunnel_poll_event none = (event_none, none)
  rtc_tunnel_poll_event (some h) = let (kind, h') = polled_event h in (kind, some h')

  unfoldable rtc_tunnel_event_len : Option (TunnelHandle P) → ℕ
  rtc_tunnel_event_len = read_handle 0 λ h. length h.event_payload

  unfoldable rtc_tunnel_event_reason : Option (TunnelHandle P) → ℕ
  rtc_tunnel_event_reason = read_handle 0 λ h. h.event_reason

  unfoldable rtc_tunnel_event_kind : Option (TunnelHandle P) → ℕ
  rtc_tunnel_event_kind = read_handle event_none λ h. h.event_kind

  -- One round of the `while` loop of `rtc_tunnel_drain_events`: a push, or the `break`.
  pub pulled :
      (DirectTunnel P → List Event × DirectTunnel P)
      → Option Event × DirectTunnel P
      → List Event × DirectTunnel P
  pulled go_on (none, t) = ([], t)
  pulled go_on (some e, t) = let (es, t') = go_on t in (e ∷ es, t')

  -- The loop: up to `room` events more.
  unfoldable pub pull : ℕ → DirectTunnel P → List Event × DirectTunnel P
  pull zero t = ([], t)
  pull (suc room) t = pulled (pull room) (poll_event t)

  unfoldable pub drain_into : (ℕ → ℕ) → ℕ → TunnelHandle P → TunnelHandle P
  drain_into place max h =
      let (drained, tunnel) = pull max h.tunnel in
      record h { tunnel = tunnel; drained = drained; descriptors = describe place 0 drained }

  unfoldable pub rtc_tunnel_drain_events :
      (ℕ → ℕ) → ℕ → Option (TunnelHandle P) → ℕ × Option (TunnelHandle P)
  rtc_tunnel_drain_events place max none = (0, none)
  rtc_tunnel_drain_events place max (some h) =
      let h' = drain_into place max h in (length h'.descriptors / 4, some h')
