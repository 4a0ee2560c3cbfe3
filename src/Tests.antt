-- ===== src/Tests.antt =====
-- Runs of the model on concrete inputs, over protocol crates in miniature.
mod Toy
mod Core
mod Dialed
mod Boundary
mod Bump
mod Memory
mod Peer
mod ToyPeer
mod Umbrella
mod Refpeer
mod Wiring
mod Trust
mod Pumped
