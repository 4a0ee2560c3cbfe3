-- ===== src/Wasm/Memory/Sound.antt =====
-- Every handle lies at a live address other than null, whatever the host calls.
use rtc_tunnel.Base.{
  ℕ, ◌≡◌, ◌≢◌, ◌∙◌, sym, ap, true, Option, none, some, List, [], ◌∷◌, arith, ◌==◌, if_holds, inl,
  inr, nat-cases, not, ◌&&◌, ltb,
}
use rtc_tunnel.Platform.{Platform}
use rtc_tunnel.Wasm.Handle.{TunnelHandle}
use rtc_tunnel.Wasm.Create.{rtc_tunnel_create}
use rtc_tunnel.Wasm.Refine.{AbiCall, call, call-none}
use rtc_tunnel.Wasm.Memory.{
  Allocator, Memory, null, put, boxed, returned, create_at, rtc_tunnel_destroy, rtc_tunnel_alloc,
  rtc_tunnel_free, call_at, MemoryCall, creates, destroys, allocates, frees, calls_at, step,
  run_all, Rightful, AllRightful,
}

module _ {A : Type 0} where
  pub put-same : (p : ℕ) (h : Option A) (f : ℕ → Option A) → put p h f p ≡ h
  unfolding put
  put-same p h f = ground arith

  pub put-other : (p q : ℕ) (h : Option A) (f : ℕ → Option A) → q ≢ p → put p h f q ≡ f q
  unfolding put
  put-other p q h f n = ground arith

module _ {M : Allocator} {P : Platform} where
  pub record IsSound (m : Memory M P) : Type 0 where
    pub null_empty : m.handles null ≡ none
    pub handles_live : (p : ℕ) → m.handles p ≢ none → M.live m.heap p ≡ true

  boxed-IsSound :
      (h : TunnelHandle P) (m : Memory M P) → IsSound m → IsSound (boxed h (M.new_box m.heap) m).1
  unfolding boxed
  boxed-IsSound h m s =
      let p = (M.new_box m.heap).0 in
      record {
        null_empty =
            put-other p null (some h) m.handles (λ e. M.new_box-nonnull m.heap (sym e))
            ∙ s.null_empty;
        handles_live = λ q held. elim (nat-cases q p) [
          | inl e ↦ ap (M.live (M.new_box m.heap).1) e ∙ M.new_box-live m.heap
          | inr n ↦
              M.new_box-others m.heap q n
              ∙ s.handles_live q (λ e. held (put-other p q (some h) m.handles n ∙ e))
        ];
      }

  returned-IsSound :
      (h : Option (TunnelHandle P)) (m : Memory M P) → IsSound m → IsSound (returned h m).1
  unfolding returned
  returned-IsSound none m s = s
  returned-IsSound (some h) m s = boxed-IsSound h m s

  destroy-IsSound : (p : ℕ) (m : Memory M P) → IsSound m → IsSound (rtc_tunnel_destroy p m)
  unfolding rtc_tunnel_destroy
  destroy-IsSound p m s =
      if_holds IsSound (p == null) (λ _. s)
        λ _. record {
          null_empty = elim (nat-cases null p) [
            | inl e ↦ ap (put p none m.handles) e ∙ put-same p none m.handles
            | inr n ↦ put-other p null none m.handles n ∙ s.null_empty
          ];
          handles_live = λ q held. elim (nat-cases q p) [
            | inl e ↦ absurd (held (ap (put p none m.handles) e ∙ put-same p none m.handles))
            | inr n ↦
                M.drop_box-others m.heap p q n
                ∙ s.handles_live q (λ e. held (put-other p q none m.handles n ∙ e))
          ];
        }

  alloc-IsSound : (len : ℕ) (m : Memory M P) → IsSound m → IsSound (rtc_tunnel_alloc len m).1
  unfolding rtc_tunnel_alloc
  alloc-IsSound len m s =
      if_holds (λ (r : Option ℕ × Memory M P). IsSound r.1) (len == 0) (λ _. s)
        λ _. record {
          null_empty = s.null_empty;
          handles_live = λ q held. M.alloc-keeps m.heap len q (s.handles_live q held);
        }

  free-IsSound :
      (p len : ℕ) (m : Memory M P)
      → m.handles p ≡ none
      → IsSound m
      → IsSound (rtc_tunnel_free p len m)
  unfolding rtc_tunnel_free
  free-IsSound p len m empty s =
      if_holds IsSound (not (p == null) && ltb 0 len)
        (λ _. record {
          null_empty = s.null_empty;
          handles_live = λ q held.
              M.dealloc-others m.heap p len q (λ e. held (ap m.handles e ∙ empty))
              ∙ s.handles_live q held;
        })
        (λ _. s)

  call_at-IsSound :
      (place : ℕ → ℕ) (p : ℕ) (c : AbiCall) (m : Memory M P)
      → IsSound m
      → IsSound (call_at place p c m)
  unfolding call_at
  call_at-IsSound place p c m s =
      if_holds IsSound (p == null) (λ _. s)
        λ nonnull.
          let after = call place c (m.handles p) in
          record {
            null_empty =
                put-other p null after m.handles (λ e. ground (arith, e, nonnull)) ∙ s.null_empty;
            handles_live = λ q held. elim (nat-cases q p) [
              | inl e ↦ s.handles_live q λ empty. held (
                  ap (put p after m.handles) e
                  ∙ put-same p after m.handles
                  ∙ ap (call place c) (ap m.handles (sym e) ∙ empty)
                  ∙ call-none place c)
              | inr n ↦ s.handles_live q (λ e. held (put-other p q after m.handles n ∙ e))
            ];
          }

  pub step-IsSound :
      (place : ℕ → ℕ) (c : MemoryCall) (m : Memory M P)
      → Rightful place c m
      → IsSound m
      → IsSound (step place c m)
  unfolding step create_at
  step-IsSound place (creates env args) m _ s =
      let r = rtc_tunnel_create P env args in
      returned-IsSound r.0 (record m { last_error = r.1 })
        (record { null_empty = s.null_empty; handles_live = s.handles_live })
  step-IsSound place (destroys p) m _ s = destroy-IsSound p m s
  step-IsSound place (allocates len) m _ s = alloc-IsSound len m s
  step-IsSound place (frees p len) m empty s = free-IsSound p len m empty s
  step-IsSound place (calls_at p c) m _ s = call_at-IsSound place p c m s

  -- While the host frees no address at which a handle lies, every handle of the module lies at a live
  -- address of the heap and none at null, whatever else the host calls.
  pub run_all-IsSound :
      (place : ℕ → ℕ) (cs : List MemoryCall) (m : Memory M P)
      → AllRightful place cs m
      → IsSound m
      → IsSound (run_all place cs m)
  unfolding run_all
  run_all-IsSound place [] m _ s = s
  run_all-IsSound place (c ∷ cs) m ok s =
      run_all-IsSound place cs (step place c m) ok.1 (step-IsSound place c m ok.0 s)
