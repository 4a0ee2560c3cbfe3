-- ===== src/Wasm/Memory/Balance.antt =====
-- What a creation takes from the module's memory, its destruction gives back.
use rtc_tunnel.Base.{
  ℕ, ◌≡◌, refl, ◌∙◌, sym, ap, Option, none, some, arith, ◌==◌, if_holds, inl, inr, nat-cases,
  ==_iff, Option-cases,
}
use rtc_tunnel.Platform.{Platform}
use rtc_tunnel.Direct.Setup.{Surroundings}
use rtc_tunnel.Wasm.Handle.{TunnelHandle}
use rtc_tunnel.Wasm.Create.{CreateArgs, rtc_tunnel_create}
use rtc_tunnel.Wasm.Memory.{
  Allocator, Memory, null, put, boxed, returned, create_at, rtc_tunnel_destroy,
}
use rtc_tunnel.Wasm.Memory.Sound.{IsSound, put-same, put-other}

module _ {M : Allocator} {P : Platform} where
  -- The same handles at the same addresses, and the same addresses live.
  pub record SameStore (m m' : Memory M P) : Type 0 where
    pub handles : (q : ℕ) → m'.handles q ≡ m.handles q
    pub live : (q : ℕ) → M.live m'.heap q ≡ M.live m.heap q

  destroyed-null : (m : Memory M P) → SameStore m (rtc_tunnel_destroy null m)
  unfolding rtc_tunnel_destroy
  destroyed-null m = record { handles = λ q. refl; live = λ q. refl }

  -- The box of a new handle was not live, so that no handle lay there.
  box-empty : (m : Memory M P) → IsSound m → m.handles (M.new_box m.heap).0 ≡ none
  box-empty m s = elim (Option-cases (m.handles (M.new_box m.heap).0)) [
    | inl e ↦ e
    | inr (h, e) ↦ absurd (
        ground (
          arith,
          s.handles_live (M.new_box m.heap).0 (λ empty. ground (arith, e, empty)),
          M.new_box-fresh m.heap,
        ))
  ]

  destroyed-boxed :
      (h : TunnelHandle P) (m : Memory M P)
      → IsSound m
      → let r = boxed h (M.new_box m.heap) m in SameStore m (rtc_tunnel_destroy r.0 r.1)
  unfolding boxed rtc_tunnel_destroy
  destroyed-boxed h m s =
      let (p, heap) = M.new_box m.heap in
      if_holds (SameStore m) (p == null)
        (λ e. absurd (M.new_box-nonnull m.heap ((==_iff p null).0 e)))
        λ _. record {
          handles = λ q. elim (nat-cases q p) [
            | inl e ↦
                ap (put p none (put p (some h) m.handles)) e
                ∙ put-same p none (put p (some h) m.handles)
                ∙ sym (ap m.handles e ∙ box-empty m s)
            | inr n ↦
                put-other p q none (put p (some h) m.handles) n ∙ put-other p q (some h) m.handles n
          ];
          live = λ q. elim (nat-cases q p) [
            | inl e ↦
                ap (M.live (M.drop_box p heap)) e
                ∙ M.drop_box-dead heap p
                ∙ sym (ap (M.live m.heap) e ∙ M.new_box-fresh m.heap)
            | inr n ↦ M.drop_box-others heap p q n ∙ M.new_box-others m.heap q n
          ];
        }

  destroyed-returned :
      (created : Option (TunnelHandle P)) (m : Memory M P)
      → IsSound m
      → let r = returned created m in SameStore m (rtc_tunnel_destroy r.0 r.1)
  unfolding returned
  destroyed-returned none m s = destroyed-null m
  destroyed-returned (some h) m s = destroyed-boxed h m s

  -- Destroying what a creation returned, a null pointer included, leaves the handles and the live
  -- addresses of the module as they were before it.
  pub rtc_tunnel_destroy-create_at :
      (env : Surroundings) (args : CreateArgs) (m : Memory M P)
      → IsSound m
      → let r = create_at env args m in SameStore m (rtc_tunnel_destroy r.0 r.1)
  unfolding create_at
  rtc_tunnel_destroy-create_at env args m s =
      let r = rtc_tunnel_create P env args in
      let same =
        destroyed-returned r.0 (record m { last_error = r.1 })
          (record { null_empty = s.null_empty; handles_live = s.handles_live }) in
      record { handles = same.handles; live = same.live }
