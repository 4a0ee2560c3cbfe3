-- ===== src/Lib.antt =====
-- A model of rtc-tunnel: one negotiated WebRTC data channel to a peer known in advance, without
-- sockets or clocks of its own. A host feeds datagrams and readings of its clock in, and takes
-- datagrams to send, messages and lifecycle events out.
--
-- The parts and their files:
--   Net, Config, Event, Trace: crates/rtc-tunnel-core/src/{config,event,error,trace}.rs and the
--     parts of `std::net` and `std::time` in use. An `Instant` is a number of nanoseconds, as
--     scripts/wasm-std/time.rs has it; readings that cross the API are milliseconds modulo 2 ^ 64.
--   Platform: what the code calls and does not implement. The record `Platform` has the operations
--     of the crates rtc-ice, rtc-dtls, rtc-sctp and rtc-crypto on abstract objects, and functions of
--     `std` over Unicode and addresses. Every theorem holds for all of them; a law, where a theorem
--     needs one, is a hypothesis. `Finite` says that polling a queue shortens it.
--   Direct: crates/rtc-tunnel-core/src/direct/mod.rs. State has the record `DirectTunnel`, one field
--     for each of the struct; a method that returns `Result` is a function to `Outcome`, which has
--     the tunnel beside the value or the error, since what was written before a `?` stays written.
--     Pump and Sctp have the drains, `pump` and what they call; Input has `receive`, `tick` and the
--     batch calls; Output has `send`, `close`, `poll_event` and the readers; Setup has the
--     constructors (`new`, `offer` for `offerer`, `answer` for `answerer`), with Configured for the
--     DTLS endpoint that they leave; Sdp and Verify have the SDP text and the certificate check,
--     with Str for the functions of `str` that they use.
--     Change says how a tunnel may evolve and what a valid one is, Evolution has that every method
--     keeps to it, and Host has any sequence of host calls with the events handed over.
--   Backend: crates/rtc-tunnel-core/src/tunnel.rs, the tunnel of the feature `rtc-backend`. Peer has
--     the peer connection of the crate rtc as a parameter, State the struct and `drain`, Calls the
--     host's calls, Setup the constructors, Keeps that no call takes back what was announced.
--   Wasm: crates/rtc-tunnel-wasm/src/lib.rs. Abi has arguments and codes, Create the constructor
--     with its error message, Handle the calls passed on to the tunnel, Events the single and the
--     batched event calls; there a null pointer is `none` and a payload's address is a parameter.
--     Refine has that these calls are the tunnel's own methods. Memory has the whole module: the
--     handles at their addresses on a heap whose allocator is a parameter with its laws, creation,
--     destruction and the host's buffers. A pointer that nothing lies at is outside the functions'
--     contracts; the model leaves it empty.
--   Refpeer: crates/rtc-tunnel-refpeer/src. Answerer is answerer.rs, a process around the direct
--     tunnel, and Echo is main.rs, one around the peer connection of the crate rtc. A process is
--     what it does before its loop (Start) and its loop (`serve`) over a list of rounds, each
--     with the readings of the clock and what the socket has; what it prints is a list of lines.
--   Bench: crates/rtc-tunnel-core/examples/core-bench.rs, two direct tunnels wired to each other,
--     from the exchange of their SDP (Connect) over the pump to the throughput loop (Flow).
--   Host: scripts/wasm-std/{time,random}.rs and crates/rtc-tunnel-wasm/src/entropy.rs, the clock and
--     the randomness that a bare wasm host supplies, the imports as parameters.
--   Tests: concrete runs over protocol crates in miniature, with an instance of every result below
--     that has hypotheses.
--
-- Loops: `while let Some(x) = poll()` runs on fuel, the number of items in the queue that it empties
-- and one round more. With `Finite` that is enough: such a loop ends by an empty poll. Where a loop
-- feeds what it empties, as the answerer's echo and the pump of two tunnels do, the fuel is an argument
-- and the theorems hold for any.
--
-- Not modelled: logging, the bytes of raw memory, a failing standard output, the timing and the
-- report of the benchmark, the TypeScript package and the vendored crates. Addition of a duration to an
-- instant does not overflow here, where the code would stop.
mod Base
pub mod Net
pub mod Event
pub mod Trace
pub mod Config
pub mod Str
pub mod Platform
pub mod Direct
pub mod Tests
pub mod Backend
pub mod Wasm
pub mod Refpeer
pub mod Bench
pub mod Host
