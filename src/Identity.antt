-- ===== src/Identity.antt =====
-- src/xray_e2e_prober/identity.py: the registry of entry ids and its reconciliation with the
-- candidates of a refreshed source. A dictionary of groups is an association list in the order of
-- insertion. The n-th random id that is drawn is an argument, `fresh n`.
pub mod Registry
pub mod Reconcile
pub mod Manual
pub mod Groups
pub mod Progress
pub mod External
pub mod Assigned
pub mod Stable
pub mod Mapped
pub mod Pruned
pub mod Tests
