-- ===== src/Models.antt =====
-- src/xray_e2e_prober/models.py: the data that the parts of the prober exchange.
pub mod States
pub mod Targets
pub mod Config
pub mod References
pub mod Overall
pub mod Tests
