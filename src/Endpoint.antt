-- ===== src/Endpoint.antt =====
-- The endpoint: the accounting of flows in kernel-mod/sch_fastpass.c, built without emulation.
pub mod Sched
pub mod Queue
pub mod Alloc
pub mod Report
pub mod Send
pub mod Inv
pub mod Tests
