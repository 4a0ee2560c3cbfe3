-- ===== src/Wasm/Memory.antt =====
-- crates/rtc-tunnel-wasm/src/lib.rs: the module's memory, where each tunnel's handle lies at an address
-- of its own, and the functions that take or give an address. The allocator is a parameter with the
-- laws it documents.
pub mod Sound
pub mod Isolation
pub mod Balance
pub mod Safety
use rtc_tunnel.Base.{
  ℕ, ◌≡◌, ◌≢◌, Bool, true, false, not, ◌&&◌, Option, none, some, List, [], ◌∷◌, Bytes, ltb, ◌==◌,
  if◌then◌else◌,
}
use rtc_tunnel.Platform.{Platform}
use rtc_tunnel.Direct.Setup.{Surroundings}
use rtc_tunnel.Wasm.Handle.{TunnelHandle, read_handle}
use rtc_tunnel.Wasm.Create.{CreateArgs, rtc_tunnel_create}
use rtc_tunnel.Wasm.Refine.{AbiCall, call}

-- The global allocator: `Box::new` aborts where `alloc` gives a null pointer, `none`.
pub record Allocator : Type 1 where
  pub Heap : Type 0
  pub live : Heap → ℕ → Bool
  pub new_box : Heap → ℕ × Heap
  pub drop_box : ℕ → Heap → Heap
  pub alloc : ℕ → Heap → Option ℕ × Heap
  pub dealloc : ℕ → ℕ → Heap → Heap
  pub new_box-nonnull : (h : Heap) → (new_box h).0 ≢ 0
  pub new_box-fresh : (h : Heap) → live h (new_box h).0 ≡ false
  pub new_box-live : (h : Heap) → live (new_box h).1 (new_box h).0 ≡ true
  pub new_box-others : (h : Heap) (p : ℕ) → p ≢ (new_box h).0 → live (new_box h).1 p ≡ live h p
  pub drop_box-dead : (h : Heap) (p : ℕ) → live (drop_box p h) p ≡ false
  pub drop_box-others : (h : Heap) (p q : ℕ) → q ≢ p → live (drop_box p h) q ≡ live h q
  pub alloc-keeps : (h : Heap) (len p : ℕ) → live h p ≡ true → live (alloc len h).1 p ≡ true
  pub alloc-fresh : (h : Heap) (len p : ℕ) → (alloc len h).0 ≡ some p → live h p ≡ false
  pub dealloc-others : (h : Heap) (p len q : ℕ) → q ≢ p → live (dealloc p len h) q ≡ live h q

-- `tunnel.is_null()` goes first; a null pointer is 0.
abbrev pub null : ℕ
null = 0

module _ (M : Allocator) (P : Platform) where
  -- The heap, the handles that lie in it, and `LAST_ERROR`.
  pub record Memory : Type 0 where
    pub heap : M.Heap
    pub handles : ℕ → Option (TunnelHandle P)
    pub last_error : Bytes

unfoldable pub put : {A : Type 0} → ℕ → Option A → (ℕ → Option A) → ℕ → Option A
put p h f q = if q == p then h else f q

module _ {M : Allocator} {P : Platform} where
  -- `Box::into_raw(Box::new(…))`
  unfoldable pub boxed : TunnelHandle P → ℕ × M.Heap → Memory M P → ℕ × Memory M P
  boxed h (p, heap) m = (p, record m { heap = heap; handles = put p (some h) m.handles })

  unfoldable pub returned : Option (TunnelHandle P) → Memory M P → ℕ × Memory M P
  returned none m = (null, m)
  returned (some h) m = boxed h (M.new_box m.heap) m

  -- `rtc_tunnel_create`
  unfoldable pub create_at : Surroundings → CreateArgs → Memory M P → ℕ × Memory M P
  create_at env args m =
      let (created, message) = rtc_tunnel_create P env args in
      returned created (record m { last_error = message })

  unfoldable pub rtc_tunnel_destroy : ℕ → Memory M P → Memory M P
  rtc_tunnel_destroy p m =
      if p == null
      then m
      else record m { heap = M.drop_box p m.heap; handles = put p none m.handles }

  unfoldable pub rtc_tunnel_alloc : ℕ → Memory M P → Option ℕ × Memory M P
  rtc_tunnel_alloc len m =
      if len == 0
      then (none, m)
      else let (p, heap) = M.alloc len m.heap in (p, record m { heap = heap })

  unfoldable pub rtc_tunnel_free : ℕ → ℕ → Memory M P → Memory M P
  rtc_tunnel_free p len m =
      if not (p == null) && ltb 0 len then record m { heap = M.dealloc p len m.heap } else m

  -- A call of the ABI on the handle at an address.
  unfoldable pub call_at : (ℕ → ℕ) → ℕ → AbiCall → Memory M P → Memory M P
  call_at place p c m =
      if p == null then m else record m { handles = put p (call place c (m.handles p)) m.handles }

-- What the host may call, on whichever tunnel.
pub data MemoryCall : Type 0 where
  creates : Surroundings → CreateArgs → MemoryCall
  destroys : ℕ → MemoryCall
  allocates : ℕ → MemoryCall
  frees : ℕ → ℕ → MemoryCall
  calls_at : ℕ → AbiCall → MemoryCall

module _ {M : Allocator} {P : Platform} (place : ℕ → ℕ) where
  unfoldable pub step : MemoryCall → Memory M P → Memory M P
  step (creates env args) m = (create_at env args m).1
  step (destroys p) m = rtc_tunnel_destroy p m
  step (allocates len) m = (rtc_tunnel_alloc len m).1
  step (frees p len) m = rtc_tunnel_free p len m
  step (calls_at p c) m = call_at place p c m

  unfoldable pub run_all : List MemoryCall → Memory M P → Memory M P
  run_all [] m = m
  run_all (c ∷ cs) m = run_all cs (step c m)

  -- What the host owes: it frees no address at which a handle lies.
  abbrev pub Rightful : MemoryCall → Memory M P → Type 0
  Rightful (frees p _) m = m.handles p ≡ none
  Rightful (creates _ _) m = Unit {0}
  Rightful (destroys _) m = Unit {0}
  Rightful (allocates _) m = Unit {0}
  Rightful (calls_at _ _) m = Unit {0}

  abbrev pub AllRightful : List MemoryCall → Memory M P → Type 0
  AllRightful [] m = Unit {0}
  AllRightful (c ∷ cs) m = Rightful c m × AllRightful cs (step c m)

-- The addresses of buffers that live inside the handle, given where a buffer lies.
module _ {P : Platform} where
  unfoldable rtc_tunnel_event_ptr : (Bytes → ℕ) → Option (TunnelHandle P) → ℕ
  rtc_tunnel_event_ptr address = read_handle null λ h. address h.event_payload

  unfoldable rtc_tunnel_events_ptr : (List ℕ → ℕ) → Option (TunnelHandle P) → ℕ
  rtc_tunnel_events_ptr address = read_handle null λ h. address h.descriptors
