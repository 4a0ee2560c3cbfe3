-- ===== src/Direct/Host/Reliability.antt =====
-- crates/rtc-tunnel-core/src/direct/mod.rs: how `open_stream` dials the channel of a tunnel that was
-- configured without a cap on retransmissions.
use rtc_tunnel.Base.{ℕ, ◌≡◌, ◌∙◌, ap, not, none, some, List, ok, or_default, true, fail, text}
use rtc_tunnel.Net.{SocketAddr}
use rtc_tunnel.Config.{TunnelConfig}
use rtc_tunnel.Event.{config}
use rtc_tunnel.Platform.{Platform, Ppi, rexmit}
use rtc_tunnel.Direct.State.{DirectTunnel, Role}
use rtc_tunnel.Direct.Sctp.{reliability, open_stream, stream_opened, params_set}
use rtc_tunnel.Direct.Setup.{Surroundings, begin}
use rtc_tunnel.Direct.Setup.Fresh.{begin-Fresh}
use rtc_tunnel.Direct.Host.{HostCall, start, run}
use rtc_tunnel.Direct.Host.Ledger.{run-Goes}

module _ {P : Platform} where
  -- The dial over an association that is held.
  held_dial :
      (u : DirectTunnel P) (a : P.Association)
      → u.association ≡ some a
      → open_stream u
        ≡ stream_opened
            (P.open_stream u.stream_id Ppi.binary a)
            (record u { channel_dialed = true })
  unfolding open_stream
  held_dial u a h =
      let t = record u { channel_dialed = true } in
      ap
        (λ o. elim o [
          | none ↦ fail (config (text "sctp association is not established")) t
          | some association ↦ stream_opened (P.open_stream t.stream_id Ppi.binary association) t
        ])
        h

  -- With a cap of zero, a stream that opens is set to a limit of zero retransmissions.
  zero_cap_dial :
      (u : DirectTunnel P) (a a' : P.Association)
      → u.max_retransmits ≡ 0
      → u.association ≡ some a
      → P.open_stream u.stream_id Ppi.binary a ≡ (ok tt, a')
      → open_stream u
        ≡ params_set
            (P.set_reliability_params u.stream_id (not u.ordered) rexmit 0 a')
            (record u { channel_dialed = true })
  unfolding stream_opened reliability
  zero_cap_dial u a a' z h o =
      let t = record u { channel_dialed = true } in
      held_dial u a h
      ∙ ap (λ r. stream_opened r t) o
      ∙ ap
          (λ n.
            params_set
              (P.set_reliability_params u.stream_id (not u.ordered) (reliability n).0
                (reliability n).1 a')
              t)
          z

-- A tunnel that was configured without a cap on retransmissions, which the C ABI documents as no
-- limit, dials its channel with a limit of zero retransmissions: whatever the host called since
-- construction, where `open_stream` finds an association and the stream opens on it, the
-- reliability that it then sets is `rexmit` with the value zero.
pub unlimited-reliability :
    {P : Platform} (env : Surroundings) (role : Role) (c : TunnelConfig) (local_addr : SocketAddr)
    (now_ms : ℕ) (t : DirectTunnel P)
    → begin P env role c local_addr now_ms ≡ ok t
    → c.max_retransmits ≡ none
    → (calls : List HostCall) (a a' : P.Association)
    → (run calls (start t)).tunnel.association ≡ some a
    → P.open_stream (run calls (start t)).tunnel.stream_id Ppi.binary a ≡ (ok tt, a')
    → open_stream (run calls (start t)).tunnel
      ≡ params_set
          (P.set_reliability_params
            (run calls (start t)).tunnel.stream_id
            (not (run calls (start t)).tunnel.ordered)
            rexmit
            0
            a')
          (record (run calls (start t)).tunnel { channel_dialed = true })
unlimited-reliability env role c local_addr now_ms t built uncapped calls a a' held opens =
    let f = begin-Fresh env c local_addr now_ms role t built in
    let zero : t.max_retransmits ≡ 0 = f.retransmits ∙ ap (λ o. or_default o 0) uncapped in
    zero_cap_dial (run calls (start t)).tunnel a a'
      ((run-Goes calls (start t)).same_retransmits ∙ zero) held opens
