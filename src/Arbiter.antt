-- ===== src/Arbiter.antt =====
-- The arbiter's side of the control protocol: arbiter/comm_core.c, built for the pipelined
-- allocator without emulation.
pub mod Node
pub mod Reports
pub mod Demands
pub mod Allocs
pub mod Pending
pub mod Packets
pub mod Exchange
pub mod Tests
