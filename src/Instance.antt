-- ===== src/Instance.antt =====
-- The OdooInstance reconciler: the rollout gate and the initialisation of the database.
pub mod Gate
pub mod Init
pub mod Addons
pub mod Config
pub mod Workload
pub mod Pass
pub mod Storage
pub mod Cron
pub mod Reconcile
pub mod Parts
pub mod Watch
