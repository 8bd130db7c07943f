-- ===== src/Service.antt =====
-- src/xray_e2e_prober/service.py: how a source is refreshed and its new state accepted, over the models
-- of sources, identity and the inventory.
pub mod State
pub mod Pointers
pub mod Commit
pub mod Refresh
pub mod Atomic
pub mod Consistent
pub mod Manual
pub mod Results
pub mod Current
pub mod Steps
pub mod Exits
pub mod Tests
