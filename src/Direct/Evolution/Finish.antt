-- ===== src/Direct/Evolution/Finish.antt =====
-- crates/rtc-tunnel-core/src/direct/mod.rs: `finish` and `maybe_open` queue their event at most once.
use rtc_tunnel.Base.{◌≡◌, refl, true, ◌&&◌, [], ◌∷◌, arith, if_holds, inl}
use rtc_tunnel.Event.{CloseReason, closed, opened}
use rtc_tunnel.Event.Count.{opens-append, closes-append}
use rtc_tunnel.Trace.{observe_open}
use rtc_tunnel.Trace.First.{Extends-refl, observe_open-Extends}
use rtc_tunnel.Platform.{Platform}
use rtc_tunnel.Direct.State.{DirectTunnel, push_back, ms, finish, maybe_open}
use rtc_tunnel.Direct.Change.{IsValid, Evolves, Evolves-refl}

module _ {P : Platform} where
  pub finish-Evolves : (reason : CloseReason) (t : DirectTunnel P) → Evolves t (finish reason t)
  unfolding finish
  finish-Evolves reason t =
      if_holds (Evolves t) t.finished (λ _. Evolves-refl t)
        λ e. record {
          same_epoch = refl;
          same_deadline = refl;
          same_stream = refl;
          same_retransmits = refl;
          ice_reported = inl refl;
          opened_stays = λ h. h;
          finished_stays = λ h. refl;
          closes_once = rw e (omega (arith, closes-append t.events (closed reason ∷ [])));
          opens_once = omega (arith, opens-append t.events (closed reason ∷ []));
          trace_kept = Extends-refl t.trace;
          appended = (closed reason ∷ [], refl);
          valid_stays = λ v. assumption;
        }

  opening-IsValid :
      (t : DirectTunnel P)
      → (t.sctp_connected && t.channel_dialed) ≡ true
      → IsValid t
      → IsValid (
          push_back opened
            (record t { opened = true; trace = observe_open (ms t t.last_now) t.trace }))
  unfolding observe_open
  opening-IsValid t e v = ground arith

  pub maybe_open-Evolves : (t : DirectTunnel P) → Evolves t (maybe_open t)
  unfolding maybe_open
  maybe_open-Evolves t =
      if_holds (Evolves t) t.opened (λ _. Evolves-refl t)
        λ e.
          if_holds (Evolves t) (t.sctp_connected && t.channel_dialed)
            (λ c. record {
              same_epoch = refl;
              same_deadline = refl;
              same_stream = refl;
              same_retransmits = refl;
              ice_reported = unfold observe_open in inl refl;
              opened_stays = λ h. refl;
              finished_stays = λ h. h;
              closes_once = omega (arith, closes-append t.events (opened ∷ []));
              opens_once = rw e (omega (arith, opens-append t.events (opened ∷ [])));
              trace_kept = observe_open-Extends (ms t t.last_now) t.trace;
              appended = (opened ∷ [], refl);
              valid_stays = opening-IsValid t c;
            })
            (λ _. Evolves-refl t)
