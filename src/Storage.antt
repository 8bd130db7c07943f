-- ===== src/Storage.antt =====
-- src/xray_e2e_prober/storage.py: the journal of a replacement of the configuration.
pub mod Journal
pub mod Recover
pub mod Crash
pub mod Tests
