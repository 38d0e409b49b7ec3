-- ===== src/Sched.antt =====
-- src/kernel/sched: parking and waking, and the scheduler's tick.
pub mod Wait
pub mod Tasks
