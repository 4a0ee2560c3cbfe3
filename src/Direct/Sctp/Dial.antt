-- ===== src/Direct/Sctp/Dial.antt =====
-- crates/rtc-tunnel-core/src/direct/mod.rs: dialing the negotiated stream.
use rtc_tunnel.Base.{
  ◌≡◌, refl, true, not, Result, ok, err, fail, after, Text, arith, option_holds, done, false, [],
  ◌∷◌, ◌++◌, subst,
}
use rtc_tunnel.Event.{Event, TunnelError}
use rtc_tunnel.Platform.{Platform, Ppi}
use rtc_tunnel.Direct.State.{DirectTunnel, Call, maybe_open}
use rtc_tunnel.Direct.Sctp.{open_stream, stream_opened, params_set, reliability, drain_channel}

module _ {P : Platform} where
  -- The dial stays recorded.
  abbrev Dialed : DirectTunnel P → Call P (Unit {0}) → Type 0
  Dialed t m =
      ((after m).channel_dialed ≡ t.channel_dialed)
      × ((after m).sctp_connected ≡ t.sctp_connected)
      × ((after m).opened ≡ t.opened)
      × ((after m).events ≡ t.events)

  params_set-Dialed :
      (r : Result Text (Unit {0}) × P.Association) (t : DirectTunnel P) → Dialed t (params_set r t)
  unfolding params_set
  params_set-Dialed (ok u, a) t = (refl, refl, refl, refl)
  params_set-Dialed (err e, a) t = (refl, refl, refl, refl)

  stream_opened-Dialed :
      (r : Result Text (Unit {0}) × P.Association) (t : DirectTunnel P)
      → Dialed t (stream_opened r t)
  unfolding stream_opened
  stream_opened-Dialed (ok u, a) t =
      params_set-Dialed
        (P.set_reliability_params t.stream_id (not t.ordered) (reliability t.max_retransmits).0
          (reliability t.max_retransmits).1 a)
        t
  stream_opened-Dialed (err e, a) t = (refl, refl, refl, refl)

  open_stream-Dialed :
      (t : DirectTunnel P) → Dialed (record t { channel_dialed = true }) (open_stream t)
  unfolding open_stream
  open_stream-Dialed t =
      let t' = record t { channel_dialed = true } in
      option_holds (Dialed t') t'.association (λ _. (refl, refl, refl, refl))
        (λ a _. stream_opened-Dialed (P.open_stream t'.stream_id Ppi.binary a) t')

  -- A dial that failed counts as one that did not: where a connected, unopened tunnel's `open_stream`
  -- fails, the tunnel that it leaves is announced as open by the next `maybe_open`, which queues one
  -- `Opened` behind the events that were there, and the next `drain_channel` does not dial again.
  pub failed_dial-opens :
      (t u : DirectTunnel P) (e : TunnelError)
      → t.sctp_connected ≡ true
      → t.opened ≡ false
      → open_stream t ≡ fail e u
      → ((maybe_open u).opened ≡ true)
        × ((maybe_open u).events ≡ t.events ++ Event.opened ∷ [])
        × (drain_channel u ≡ done tt u)
  unfolding maybe_open drain_channel
  failed_dial-opens t u e c shut h =
      let d : Dialed (record t { channel_dialed = true }) (fail e u) =
        subst (Dialed (record t { channel_dialed = true })) h (open_stream-Dialed t) in
      (
        ground (arith, d.0, d.1, d.2, c, shut),
        ground (arith, d.0, d.1, d.2, d.3, c, shut),
        ground (arith, d.0, d.1, c),
      )
