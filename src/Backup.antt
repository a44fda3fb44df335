-- ===== src/Backup.antt =====
-- The OdooBackup reconciler.
pub mod Settings
pub mod Validate
pub mod Script
pub mod Job
pub mod Logs
pub mod Status
pub mod Pass
pub mod OneShot
pub mod Schedule
pub mod Reconcile
pub mod Passes
pub mod Lifecycle
