-- ===== src/Tests/Memory.antt =====
-- crates/rtc-tunnel-wasm/src/lib.rs: a module with two tunnels, whose calls the host interleaves.
use rtc_tunnel.Base.{
  ◌&◌, ap, ◌∙◌, is_some, ◌≡◌, refl, true, false, text, none, some, List, [], ◌∷◌, arith, inl, inr,
  nat-cases,
}
use rtc_tunnel.Wasm.Abi.{positive, reading, as_u64, max_zero, slice_from}
use rtc_tunnel.Wasm.Memory.Safety.{run_all_open_secured}
use rtc_tunnel.Direct.State.{DirectTunnel, offerer}
use rtc_tunnel.Wasm.Create.{CreateArgs}
use rtc_tunnel.Wasm.Refine.{calls_input, calls_tick, calls_drain_events, Mirrors}
use rtc_tunnel.Wasm.Memory.{
  Memory, put, rtc_tunnel_alloc, MemoryCall, creates, destroys, allocates, frees, calls_at, step,
  create_at, rtc_tunnel_destroy, run_all, AllRightful,
}
use rtc_tunnel.Wasm.Memory.Sound.{IsSound, run_all-IsSound}
use rtc_tunnel.Wasm.Memory.Isolation.{all_at_pointer, run_all-Mirrors}
use rtc_tunnel.Wasm.Memory.Balance.{SameStore, rtc_tunnel_destroy-create_at}
use rtc_tunnel.Direct.Host.{start, run}
use rtc_tunnel.Tests.Toy.{toy, toy_addr}
use rtc_tunnel.Tests.Core.{around, settings, tunnel, tunnel-built, calls, ended-open}
use rtc_tunnel.Tests.Boundary.{handle, new_handle, place, no_args}
use rtc_tunnel.Tests.Bump.{bump}

abbrev two_tunnels : Memory bump toy
two_tunnels = record {
  heap = 3 ∷ 1 ∷ [];
  handles = put 1 (some handle) (put 3 (some new_handle) (λ _. none));
  last_error = [];
}

two_tunnels-IsSound : IsSound two_tunnels
unfolding put
two_tunnels-IsSound = record {
  null_empty = refl;
  handles_live = λ p held. elim (nat-cases p 1) [
    | inl e ↦ ground (arith, e)
    | inr n ↦ elim (nat-cases p 3) [
      | inl e ↦ ground (arith, e)
      | inr n' ↦ absurd (held (ground (arith, n, n')))
    ]
  ];
}

-- A buffer comes and goes, both tunnels are called, a creation fails and the second tunnel ends.
abbrev interleaved : List MemoryCall
interleaved =
    allocates 16
    ∷ frees 5 16
    ∷ calls_at 1 (calls_input (positive 110 true) (some (1 ∷ [])))
    ∷ calls_at 3 (calls_tick (positive 115 false))
    ∷ creates around no_args
    ∷ destroys 3
    ∷ calls_at 1 (calls_drain_events 4)
    ∷ []

interleaved-AllRightful : AllRightful place interleaved two_tunnels
unfolding step rtc_tunnel_alloc put
interleaved-AllRightful = tt & refl & tt & tt & tt & tt & tt & tt

here : two_tunnels.handles 1 ≡ some handle
unfolding put
here = refl

run_all-IsSound_example : IsSound (run_all place interleaved two_tunnels)
run_all-IsSound_example =
    run_all-IsSound place interleaved two_tunnels interleaved-AllRightful two_tunnels-IsSound

run_all-Mirrors_example :
    Mirrors
      (run (all_at_pointer 1 interleaved) (start handle.tunnel))
      ((run_all place interleaved two_tunnels).handles 1)
run_all-Mirrors_example =
    run_all-Mirrors place 1 interleaved two_tunnels (start handle.tunnel) interleaved-AllRightful
      (tt & tt & tt & tt & tt & (λ e. ground (arith, e)) & tt & tt) two_tunnels-IsSound
      (handle, here, refl)

abbrev good_args : CreateArgs
good_args = record no_args {
  remote = some (text "127.0.0.1:4000");
  local = some (text "127.0.0.1:4001");
  ufrag = some (text "them");
  pwd = some (text "pwd");
  fingerprint = some (text "ab:0c");
  fingerprint_algorithm = some (text "sha-256");
}

rtc_tunnel_destroy-create_at_example : SameStore two_tunnels (
    rtc_tunnel_destroy
      (create_at around good_args two_tunnels).0
      (create_at around good_args two_tunnels).1)
rtc_tunnel_destroy-create_at_example =
    rtc_tunnel_destroy-create_at around good_args two_tunnels two_tunnels-IsSound

-- Two datagrams open the second tunnel's channel, while the first goes on.
abbrev opening : List MemoryCall
opening =
    calls_at 3 (calls_input (positive 110 false) (some (1 ∷ [])))
    ∷ calls_at 1 (calls_tick (positive 115 false))
    ∷ calls_at 3 (calls_input (positive 120 false) (some (22 ∷ [])))
    ∷ []

opening_lem : all_at_pointer 3 opening ≡ calls
unfolding reading as_u64 max_zero slice_from
opening_lem = refl

second : two_tunnels.handles 3 ≡ some new_handle
unfolding put
second = refl

abbrev opened_handle :
    Mirrors
      (run (all_at_pointer 3 opening) (start tunnel))
      ((run_all place opening two_tunnels).handles 3)
opened_handle =
    run_all-Mirrors place 3 opening two_tunnels (start tunnel) (tt & tt & tt & tt)
      (tt & tt & tt & tt) two_tunnels-IsSound (new_handle, second, refl)

run_all_open_secured_example :
    (opened_handle.0.tunnel.dtls_connected ≡ true)
    × (opened_handle.0.tunnel.sctp_connected ≡ true)
    × (opened_handle.0.tunnel.channel_dialed ≡ true)
    × (is_some opened_handle.0.tunnel.association ≡ true)
run_all_open_secured_example =
    run_all_open_secured around offerer settings toy_addr 100 new_handle tunnel-built place 3
      opening two_tunnels opened_handle.0 (tt & tt & tt & tt) (tt & tt & tt & tt)
      two_tunnels-IsSound second opened_handle.1
      (ap (λ (t : DirectTunnel toy). t.opened) opened_handle.2
        ∙ ap (λ cs. (run cs (start tunnel)).tunnel.opened) opening_lem
        ∙ ended-open)
