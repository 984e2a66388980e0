-- ===== src/Host.antt =====
-- An endpoint with its packet queues: kernel-mod/sch_fastpass.c calls kernel-mod/sch_timeslot.c to
-- send and renumber timeslots, and is called back for each new timeslot.
pub mod Step
pub mod Calls
pub mod Allocs
pub mod Resets
pub mod Packets
pub mod Reports
pub mod Reach
pub mod Start
mod Tests
