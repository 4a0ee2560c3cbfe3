-- ===== src/Trace/First.antt =====
-- What a trace has recorded stays: the order of traces in which each phase keeps its first reading.
use rtc_tunnel.Base.{
  ℕ, ◌≡◌, refl, ◌∙◌, Bool, true, false, Option, none, some, arith, is_some, if◌then◌else◌,
}
use rtc_tunnel.Trace.{
  HandshakeTrace, observe_ice, observe_dtls, observe_sctp, observe_open, observe, first, first_if,
}

-- A reading that is there stays what it is.
abbrev Kept : Option ℕ → Option ℕ → Type 0
Kept none after = Unit {0}
Kept (some ms) after = after ≡ some ms

Kept-refl : (o : Option ℕ) → Kept o o
Kept-refl none = tt
Kept-refl (some ms) = refl

Kept-trans : (a b c : Option ℕ) → Kept a b → Kept b c → Kept a c
Kept-trans none b c p q = tt
Kept-trans (some ms) none c p q = ground arith
Kept-trans (some ms) (some ms') c p q = q ∙ p

Kept-first : (o : Option ℕ) (ms : ℕ) → Kept o (first o ms)
Kept-first none ms = tt
Kept-first (some _) ms = refl

pub record Extends (before after : HandshakeTrace) : Type 0 where
  pub start : after.start_ms ≡ before.start_ms
  pub ice : Kept before.ice_ms after.ice_ms
  pub dtls : Kept before.dtls_ms after.dtls_ms
  pub sctp : Kept before.sctp_ms after.sctp_ms
  pub open_kept : Kept before.opened_ms after.opened_ms

pub Extends-refl : (t : HandshakeTrace) → Extends t t
Extends-refl t = record {
  start = refl;
  ice = Kept-refl t.ice_ms;
  dtls = Kept-refl t.dtls_ms;
  sctp = Kept-refl t.sctp_ms;
  open_kept = Kept-refl t.opened_ms;
}

pub Extends-trans : (a b c : HandshakeTrace) → Extends a b → Extends b c → Extends a c
Extends-trans a b c p q = record {
  start = q.start ∙ p.start;
  ice = Kept-trans a.ice_ms b.ice_ms c.ice_ms p.ice q.ice;
  dtls = Kept-trans a.dtls_ms b.dtls_ms c.dtls_ms p.dtls q.dtls;
  sctp = Kept-trans a.sctp_ms b.sctp_ms c.sctp_ms p.sctp q.sctp;
  open_kept = Kept-trans a.opened_ms b.opened_ms c.opened_ms p.open_kept q.open_kept;
}

pub observe_ice-Extends : (ms : ℕ) (t : HandshakeTrace) → Extends t (observe_ice ms t)
unfolding observe_ice
observe_ice-Extends ms t = record {
  start = refl;
  ice = Kept-first t.ice_ms ms;
  dtls = Kept-refl t.dtls_ms;
  sctp = Kept-refl t.sctp_ms;
  open_kept = Kept-refl t.opened_ms;
}

pub observe_dtls-Extends : (ms : ℕ) (t : HandshakeTrace) → Extends t (observe_dtls ms t)
unfolding observe_dtls
observe_dtls-Extends ms t = record {
  start = refl;
  ice = Kept-refl t.ice_ms;
  dtls = Kept-first t.dtls_ms ms;
  sctp = Kept-refl t.sctp_ms;
  open_kept = Kept-refl t.opened_ms;
}

pub observe_sctp-Extends : (ms : ℕ) (t : HandshakeTrace) → Extends t (observe_sctp ms t)
unfolding observe_sctp
observe_sctp-Extends ms t = record {
  start = refl;
  ice = Kept-refl t.ice_ms;
  dtls = Kept-refl t.dtls_ms;
  sctp = Kept-first t.sctp_ms ms;
  open_kept = Kept-refl t.opened_ms;
}

pub observe_open-Extends : (ms : ℕ) (t : HandshakeTrace) → Extends t (observe_open ms t)
unfolding observe_open
observe_open-Extends ms t = record {
  start = refl;
  ice = Kept-refl t.ice_ms;
  dtls = Kept-refl t.dtls_ms;
  sctp = Kept-refl t.sctp_ms;
  open_kept = Kept-first t.opened_ms ms;
}

Kept-first_if : (b : Bool) (o : Option ℕ) (ms : ℕ) → Kept o (first_if b o ms)
Kept-first_if true none ms = tt
Kept-first_if true (some _) ms = refl
Kept-first_if false o ms = Kept-refl o

Extends-if : (b : Bool) (t u : HandshakeTrace) → Extends t u → Extends t (if b then t else u)
Extends-if true t u h = Extends-refl t
Extends-if false t u h = h

-- `observe` never changes a reading that is there, whichever phases it is told of.
pub observe-Extends :
    (ms : ℕ) (ice dtls sctp opened : Bool) (t : HandshakeTrace)
    → Extends t (observe ms ice dtls sctp opened t)
unfolding observe
observe-Extends ms ice dtls sctp opened t = Extends-if (is_some t.opened_ms) t _ (record {
  start = refl;
  ice = Kept-first_if ice t.ice_ms ms;
  dtls = Kept-first_if dtls t.dtls_ms ms;
  sctp = Kept-first_if sctp t.sctp_ms ms;
  open_kept = Kept-first_if opened t.opened_ms ms;
})
