-- ===== src/GraphAlgo.antt =====
-- graph-algo/: the centralized allocation of timeslots (the pipelined arbiter).
pub mod Admitted
pub mod Bin
pub mod Ring
pub mod RingTests
pub mod Batch
pub mod Backlog
pub mod Seq
pub mod Tests
