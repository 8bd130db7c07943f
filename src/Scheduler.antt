-- ===== src/Scheduler.antt =====
-- src/xray_e2e_prober/scheduler.py: the bounded scheduler with per-check overlap protection.
pub mod State
pub mod Queueing
pub mod Updating
pub mod Lifecycle
pub mod Counting
pub mod Overlap
pub mod Safety
pub mod Obsolete
pub mod Waiters
pub mod Settled
pub mod Tests
