-- ===== src/Addon.antt =====
-- The OdooAddon reconciler.
pub mod Pass
pub mod State
pub mod Spec
pub mod Status
pub mod Sync
pub mod Reconcile
pub mod Deletion
pub mod Output
pub mod Script
pub mod Job
