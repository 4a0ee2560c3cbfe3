-- ===== src/Wasm/Memory/Isolation.antt =====
-- The tunnels of one module do not disturb each other, and each refines the tunnel of the core.
use rtc_tunnel.Base.{
  ℕ, ◌≡◌, ◌≢◌, refl, ◌∙◌, sym, ap, Option, none, some, List, [], ◌∷◌, ◌++◌, arith, ◌==◌,
  if◌then◌else◌, if_holds, inl, inr, nat-cases, ==_iff, false, if-true, if-false, not, ◌&&◌, ltb,
}
use rtc_tunnel.Platform.{Platform}
use rtc_tunnel.Direct.Host.{HostCall, Session, run}
use rtc_tunnel.Wasm.Handle.{TunnelHandle}
use rtc_tunnel.Wasm.Create.{rtc_tunnel_create}
use rtc_tunnel.Wasm.Refine.{AbiCall, on_tunnel, call, run-append, Mirrors, call-Mirrors}
use rtc_tunnel.Wasm.Memory.{
  Allocator, Memory, null, boxed, returned, create_at, rtc_tunnel_destroy, rtc_tunnel_alloc,
  rtc_tunnel_free, call_at, MemoryCall, creates, destroys, allocates, frees, calls_at, step,
  run_all, Rightful, AllRightful,
}
use rtc_tunnel.Wasm.Memory.Sound.{IsSound, put-same, put-other, step-IsSound}

-- What a call of the host is to the tunnel at address `p`.
abbrev at_pointer : ℕ → MemoryCall → List HostCall
at_pointer p (calls_at q c) = if q == p then on_tunnel c else []
at_pointer p (creates _ _) = []
at_pointer p (destroys _) = []
at_pointer p (allocates _) = []
at_pointer p (frees _ _) = []

abbrev pub all_at_pointer : ℕ → List MemoryCall → List HostCall
all_at_pointer p [] = []
all_at_pointer p (c ∷ cs) = at_pointer p c ++ all_at_pointer p cs

-- The host does not destroy the tunnel at `p`.
abbrev Spares : ℕ → MemoryCall → Type 0
Spares p (destroys q) = q ≢ p
Spares p (creates _ _) = Unit {0}
Spares p (allocates _) = Unit {0}
Spares p (frees _ _) = Unit {0}
Spares p (calls_at _ _) = Unit {0}

abbrev pub AllSpare : ℕ → List MemoryCall → Type 0
AllSpare p [] = Unit {0}
AllSpare p (c ∷ cs) = Spares p c × AllSpare p cs

==-false : (a b : ℕ) → a ≢ b → (a == b) ≡ false
==-false a b n = ground arith

module _ {M : Allocator} {P : Platform} where
  -- An address that holds a handle is neither null nor the next box.
  held : (p : ℕ) (m : Memory M P) (h : TunnelHandle P) → m.handles p ≡ some h → m.handles p ≢ none
  held p m h e empty = ground (arith, e, empty)

  returned-keeps :
      (created : Option (TunnelHandle P)) (m : Memory M P) (p : ℕ) (h : TunnelHandle P)
      → IsSound m
      → m.handles p ≡ some h
      → (returned created m).1.handles p ≡ m.handles p
  unfolding returned boxed
  returned-keeps none m p h s e = refl
  returned-keeps (some new) m p h s e =
      let q = (M.new_box m.heap).0 in
      put-other q p (some new) m.handles λ same.
        ground
          (arith, ap (M.live m.heap) same, s.handles_live p (held p m h e), M.new_box-fresh m.heap)

  destroy-keeps :
      (p q : ℕ) (m : Memory M P) → q ≢ p → (rtc_tunnel_destroy q m).handles p ≡ m.handles p
  unfolding rtc_tunnel_destroy
  destroy-keeps p q m n =
      if_holds (λ (r : Memory M P). r.handles p ≡ m.handles p) (q == null) (λ _. refl)
        (λ _. put-other q p none m.handles (λ e. n (sym e)))

  call_at-other :
      (place : ℕ → ℕ) (p q : ℕ) (c : AbiCall) (m : Memory M P)
      → q ≢ p
      → (call_at place q c m).handles p ≡ m.handles p
  unfolding call_at
  call_at-other place p q c m n =
      if_holds (λ (r : Memory M P). r.handles p ≡ m.handles p) (q == null) (λ _. refl)
        (λ _. put-other q p (call place c (m.handles q)) m.handles (λ e. n (sym e)))

  call_at-same :
      (place : ℕ → ℕ) (p : ℕ) (c : AbiCall) (m : Memory M P)
      → p ≢ null
      → (call_at place p c m).handles p ≡ call place c (m.handles p)
  unfolding call_at
  call_at-same place p c m n =
      if_holds (λ (r : Memory M P). r.handles p ≡ call place c (m.handles p)) (p == null)
        (λ e. ground (arith, n, e)) (λ _. put-same p (call place c (m.handles p)) m.handles)

  -- The handle of `p` has the tunnel of the session, before a change that leaves it there and after.
  carried :
      (s : Session P) (p : ℕ) (m m' : Memory M P)
      → m'.handles p ≡ m.handles p
      → Mirrors s (m.handles p)
      → Mirrors s (m'.handles p)
  carried s p m m' e (o, here, same) = (o, e ∙ here, same)

  nonnull :
      (s : Session P) (p : ℕ) (m : Memory M P) → IsSound m → Mirrors s (m.handles p) → p ≢ null
  nonnull s p m sound (o, here, _) e = held p m o here (ap m.handles e ∙ sound.null_empty)

  called :
      (place : ℕ → ℕ) (p : ℕ) (c : AbiCall) (m : Memory M P) (s : Session P)
      → p ≢ null
      → Mirrors s (m.handles p)
      → Mirrors (run (on_tunnel c) s) ((call_at place p c m).handles p)
  called place p c m s n (o, here, same) =
      let r = call-Mirrors place c o s same in
      (r.0, call_at-same place p c m n ∙ ap (call place c) here ∙ r.1, r.2)

  step-Mirrors :
      (place : ℕ → ℕ) (p : ℕ) (c : MemoryCall) (m : Memory M P) (s : Session P)
      → Rightful place c m
      → Spares p c
      → IsSound m
      → Mirrors s (m.handles p)
      → Mirrors (run (at_pointer p c) s) ((step place c m).handles p)
  unfolding step create_at rtc_tunnel_alloc rtc_tunnel_free run
  step-Mirrors place p (creates env args) m s _ _ sound (o, here, same) =
      let r = rtc_tunnel_create P env args in
      let m' = record m { last_error = r.1 } in
      (
        o,
        returned-keeps r.0 m' p o
              (record { null_empty = sound.null_empty; handles_live = sound.handles_live }) here
            ∙ here,
        same,
      )
  step-Mirrors place p (destroys q) m s _ spared _ h =
      carried s p m (rtc_tunnel_destroy q m) (destroy-keeps p q m spared) h
  step-Mirrors place p (allocates len) m s _ _ _ h =
      if_holds (λ (r : Option ℕ × Memory M P). Mirrors s (r.1.handles p)) (len == 0) (λ _. h)
        (λ _. h)
  step-Mirrors place p (frees q len) m s _ _ _ h =
      if_holds (λ (r : Memory M P). Mirrors s (r.handles p)) (not (q == null) && ltb 0 len) (λ _. h)
        (λ _. h)
  step-Mirrors place p (calls_at q c) m s _ _ sound h = elim (nat-cases q p) [
    | inl e ↦
        let (o, here, same) = called place p c m s (nonnull s p m sound h) h in
        (
          o,
          ap (λ x. (call_at place x c m).handles p) e ∙ here,
          same ∙ ap (λ cs. (run cs s).tunnel) (sym (if-true (on_tunnel c) [] ((==_iff q p).1 e))),
        )
    | inr n ↦
        let (o, here, same) =
          carried s p m (call_at place q c m) (call_at-other place p q c m n) h in
        (
          o,
          here,
          same ∙ ap (λ cs. (run cs s).tunnel) (sym (if-false (on_tunnel c) [] (==-false q p n))),
        )
  ]

  -- However the host interleaves its calls on the module, while it frees no address of a handle and does
  -- not destroy the tunnel at `p`, the handle stays at `p` and its tunnel is what the calls at `p` alone
  -- lead to from the tunnel that it had.
  pub run_all-Mirrors :
      (place : ℕ → ℕ) (p : ℕ) (cs : List MemoryCall) (m : Memory M P) (s : Session P)
      → AllRightful place cs m
      → AllSpare p cs
      → IsSound m
      → Mirrors s (m.handles p)
      → Mirrors (run (all_at_pointer p cs) s) ((run_all place cs m).handles p)
  unfolding run run_all
  run_all-Mirrors place p [] m s _ _ _ h = h
  run_all-Mirrors place p (c ∷ cs) m s rightful spared sound h =
      let (o, here, same) =
        run_all-Mirrors place p cs (step place c m) (run (at_pointer p c) s) rightful.1 spared.1
          (step-IsSound place c m rightful.0 sound)
          (step-Mirrors place p c m s rightful.0 spared.0 sound h) in
      (
        o,
        here,
        same
            ∙ ap (λ (r : Session P). r.tunnel)
                (sym (run-append (at_pointer p c) (all_at_pointer p cs) s)),
      )
