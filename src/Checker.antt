-- ===== src/Checker.antt =====
-- src/xray_e2e_prober/checker.py: the checks of targets and egress assertions through one SOCKS port.
pub mod Failures
pub mod Request
pub mod Bounds
pub mod Target
pub mod Valid
pub mod Success
pub mod Egress
pub mod Observed
pub mod EgressVerdict
pub mod Ids
pub mod TargetSet
pub mod Quorum
pub mod Verdict
pub mod Tests
