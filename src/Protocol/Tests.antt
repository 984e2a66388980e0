-- ===== src/Protocol/Tests.antt =====
-- The laws of the protocol at concrete windows, connections and packets.
mod Windows
pub mod Conns
