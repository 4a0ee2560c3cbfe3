-- ===== src/Direct/Change.antt =====
-- How the tunnel's state may change, and what a valid state is.
use rtc_tunnel.Base.{
  ◌+◌, ◌≡◌, refl, sym, ap, ◌∙◌, ◌⊎◌, inl, inr, some, true, is_some, List, [], ◌∷◌, ◌++◌, flag,
  arith, IsPreorder, after, append_assoc, append-nil,
}
use rtc_tunnel.Event.{Event}
use rtc_tunnel.Event.Count.{opens, closes, opens-append, closes-append}
use rtc_tunnel.Trace.{HandshakeTrace}
use rtc_tunnel.Trace.First.{Extends, Extends-refl, Extends-trans}
use rtc_tunnel.Net.{Instant}
use rtc_tunnel.Platform.{Platform, IceState, connection_state_change}
use rtc_tunnel.Direct.Pump.{ready}
use rtc_tunnel.Direct.State.{DirectTunnel, Call, push_back}

-- The phases come up in order, each on the one before, and the trace has exactly those reached.
pub record IsValid {P : Platform} (t : DirectTunnel P) : Type 0 where
  pub open_dialed : t.opened ≡ true → t.channel_dialed ≡ true
  pub dialed_connected : t.channel_dialed ≡ true → t.sctp_connected ≡ true
  pub connected_associated : t.sctp_connected ≡ true → is_some t.association ≡ true
  pub associated_handle : is_some t.association_handle ≡ is_some t.association
  pub associated_sctp : is_some t.association ≡ true → is_some t.sctp ≡ true
  pub sctp_secured : is_some t.sctp ≡ true → t.dtls_connected ≡ true
  pub open_traced : is_some t.trace.opened_ms ≡ t.opened
  pub sctp_traced : is_some t.trace.sctp_ms ≡ t.sctp_connected
  pub dtls_traced : is_some t.trace.dtls_ms ≡ t.dtls_connected

-- A poll of the ICE agent can report that it is ready.
abbrev pub Reported : Platform → Type 0
Reported P =
    (before : P.Agent) × (after : P.Agent) × (state : IceState) × (at : Instant) × (P.ice_poll_event
        before
      ≡ some (connection_state_change state at, after))
    × (ready state ≡ true)

pub reported_trans :
    (P : Platform) (a b c : HandshakeTrace)
    → (b.ice_ms ≡ a.ice_ms) ⊎ Reported P
    → (c.ice_ms ≡ b.ice_ms) ⊎ Reported P
    → (c.ice_ms ≡ a.ice_ms) ⊎ Reported P
reported_trans P a b c (inl p) (inl q) = inl (q ∙ p)
reported_trans P a b c (inl p) (inr r) = inr r
reported_trans P a b c (inr r) _ = inr r

-- What no call between construction and the end ever takes back.
pub record Evolves {P : Platform} (before after : DirectTunnel P) : Type 0 where
  pub same_epoch : after.epoch ≡ before.epoch
  pub same_deadline : after.handshake_deadline ≡ before.handshake_deadline
  pub same_stream : after.stream_id ≡ before.stream_id
  pub same_retransmits : after.max_retransmits ≡ before.max_retransmits
  pub opened_stays : before.opened ≡ true → after.opened ≡ true
  pub finished_stays : before.finished ≡ true → after.finished ≡ true
  pub closes_once :
      closes after.events + flag before.finished ≡ closes before.events + flag after.finished
  pub opens_once : opens after.events + flag before.opened ≡ opens before.events + flag after.opened
  pub trace_kept : Extends before.trace after.trace
  pub ice_reported : (after.trace.ice_ms ≡ before.trace.ice_ms) ⊎ Reported P
  pub appended : (new : List Event) × (after.events ≡ before.events ++ new)
  pub valid_stays : IsValid before → IsValid after

module _ {P : Platform} where
  pub Evolves-refl : (t : DirectTunnel P) → Evolves t t
  Evolves-refl t = record {
    same_epoch = refl;
    same_deadline = refl;
    same_stream = refl;
    same_retransmits = refl;
    ice_reported = inl refl;
    opened_stays = λ h. h;
    finished_stays = λ h. h;
    closes_once = refl;
    opens_once = refl;
    trace_kept = Extends-refl t.trace;
    appended = ([], sym (append-nil t.events));
    valid_stays = λ v. v;
  }

  pub Evolves-trans : (a b c : DirectTunnel P) → Evolves a b → Evolves b c → Evolves a c
  Evolves-trans a b c p q = record {
    same_epoch = q.same_epoch ∙ p.same_epoch;
    same_deadline = q.same_deadline ∙ p.same_deadline;
    same_stream = q.same_stream ∙ p.same_stream;
    same_retransmits = q.same_retransmits ∙ p.same_retransmits;
    ice_reported = reported_trans P a.trace b.trace c.trace p.ice_reported q.ice_reported;
    opened_stays = λ h. q.opened_stays (p.opened_stays h);
    finished_stays = λ h. q.finished_stays (p.finished_stays h);
    closes_once = omega (arith, p.closes_once, q.closes_once);
    opens_once = omega (arith, p.opens_once, q.opens_once);
    trace_kept = Extends-trans a.trace b.trace c.trace p.trace_kept q.trace_kept;
    appended = (
      p.appended.0 ++ q.appended.0,
      q.appended.1
          ∙ ap (λ l. l ++ q.appended.0) p.appended.1
          ∙ append_assoc a.events p.appended.0 q.appended.0,
    );
    valid_stays = λ v. q.valid_stays (p.valid_stays v);
  }

  -- The call evolves the tunnel, whether it returns or stops early.
  abbrev pub Leads : (A : Type 0) → DirectTunnel P → Call P A → Type 0
  Leads A t m = Evolves t (after m)

  pub Evolves-IsPreorder : IsPreorder (Evolves {P = P})
  Evolves-IsPreorder = record { stay = Evolves-refl; go_on = Evolves-trans }

-- A change that queues nothing, and neither opens nor finishes the tunnel.
pub record Quiet {P : Platform} (before after : DirectTunnel P) : Type 0 where
  pub epoch : after.epoch ≡ before.epoch
  pub deadline : after.handshake_deadline ≡ before.handshake_deadline
  pub stream : after.stream_id ≡ before.stream_id
  pub retransmits : after.max_retransmits ≡ before.max_retransmits
  pub opened : after.opened ≡ before.opened
  pub finished : after.finished ≡ before.finished
  pub events : after.events ≡ before.events

-- A change of the protocol objects and counters alone.
pub record Plumbing {P : Platform} (before after : DirectTunnel P) : Type 0 where
  pub epoch : after.epoch ≡ before.epoch
  pub deadline : after.handshake_deadline ≡ before.handshake_deadline
  pub stream : after.stream_id ≡ before.stream_id
  pub retransmits : after.max_retransmits ≡ before.max_retransmits
  pub remote : after.remote_addr ≡ before.remote_addr
  pub fingerprint : after.remote_fingerprint ≡ before.remote_fingerprint
  pub algorithm : after.fingerprint_algorithm ≡ before.fingerprint_algorithm
  pub unverified : after.disable_fingerprint_verification ≡ before.disable_fingerprint_verification
  pub opened : after.opened ≡ before.opened
  pub finished : after.finished ≡ before.finished
  pub dtls_connected : after.dtls_connected ≡ before.dtls_connected
  pub sctp_connected : after.sctp_connected ≡ before.sctp_connected
  pub channel_dialed : after.channel_dialed ≡ before.channel_dialed
  pub events : after.events ≡ before.events
  pub trace : after.trace ≡ before.trace
  pub association : is_some after.association ≡ is_some before.association
  pub handle : is_some after.association_handle ≡ is_some before.association_handle
  pub sctp : is_some after.sctp ≡ is_some before.sctp

module _ {P : Platform} where
  pub Plumbing-IsValid : (t u : DirectTunnel P) → Plumbing t u → IsValid t → IsValid u
  Plumbing-IsValid t u p v = record {
    open_dialed = ground arith;
    dialed_connected = ground arith;
    connected_associated = ground arith;
    associated_handle = ground arith;
    associated_sctp = ground arith;
    sctp_secured = ground arith;
    open_traced =
        ap (λ (r : HandshakeTrace). is_some r.opened_ms) p.trace ∙ v.open_traced ∙ sym p.opened;
    sctp_traced =
        ap (λ (r : HandshakeTrace). is_some r.sctp_ms) p.trace
        ∙ v.sctp_traced
        ∙ sym p.sctp_connected;
    dtls_traced =
        ap (λ (r : HandshakeTrace). is_some r.dtls_ms) p.trace
        ∙ v.dtls_traced
        ∙ sym p.dtls_connected;
  }

  pub Plumbing-Evolves : (t u : DirectTunnel P) → Plumbing t u → Evolves t u
  Plumbing-Evolves t u p = record {
    same_epoch = p.epoch;
    same_deadline = p.deadline;
    same_stream = p.stream;
    same_retransmits = p.retransmits;
    ice_reported = inl (ap (λ (r : HandshakeTrace). r.ice_ms) p.trace);
    opened_stays = λ h. p.opened ∙ h;
    finished_stays = λ h. p.finished ∙ h;
    closes_once = cc (p.events, p.finished);
    opens_once = cc (p.events, p.opened);
    trace_kept = rw p.trace (Extends-refl t.trace);
    appended = ([], p.events ∙ sym (append-nil t.events));
    valid_stays = Plumbing-IsValid t u p;
  }

  pub Quiet-Evolves :
      (t u : DirectTunnel P)
      → Quiet t u
      → Extends t.trace u.trace
      → (u.trace.ice_ms ≡ t.trace.ice_ms) ⊎ Reported P
      → (IsValid t → IsValid u)
      → Evolves t u
  Quiet-Evolves t u q e i v = record {
    same_epoch = q.epoch;
    same_deadline = q.deadline;
    same_stream = q.stream;
    same_retransmits = q.retransmits;
    ice_reported = i;
    opened_stays = λ h. q.opened ∙ h;
    finished_stays = λ h. q.finished ∙ h;
    closes_once = cc (q.events, q.finished);
    opens_once = cc (q.events, q.opened);
    trace_kept = e;
    appended = ([], q.events ∙ sym (append-nil t.events));
    valid_stays = v;
  }

  -- A datagram or a message is queued.
  pub push_back-Evolves :
      (e : Event) (t : DirectTunnel P)
      → opens (e ∷ []) ≡ 0
      → closes (e ∷ []) ≡ 0
      → Evolves t (push_back e t)
  push_back-Evolves e t o c = record {
    same_epoch = refl;
    same_deadline = refl;
    same_stream = refl;
    same_retransmits = refl;
    ice_reported = inl refl;
    opened_stays = λ h. h;
    finished_stays = λ h. h;
    trace_kept = Extends-refl t.trace;
    valid_stays = λ v. assumption;
    closes_once = omega (arith, closes-append t.events (e ∷ []));
    opens_once = omega (arith, opens-append t.events (e ∷ []));
    appended = (e ∷ [], refl);
  }
