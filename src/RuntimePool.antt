-- ===== src/RuntimePool.antt =====
-- src/xray_e2e_prober/runtime_pool.py: the backoff of the restarts of runtimes, which decides whether a
-- start is refused, and the runtimes of the pool with the slots that they hold.
pub mod Backoff
pub mod Delays
pub mod Slots
pub mod Accounts
pub mod Balance
pub mod Conserved
pub mod Ownership
pub mod Tests
