-- ===== src/Tsq.antt =====
-- The packet queues of an endpoint: kernel-mod/sch_timeslot.c.
pub mod Packet
pub mod Tree
pub mod Sched
pub mod Enqueue
pub mod Handle
pub mod Inv
pub mod Sent
pub mod Resize
pub mod Tests
