-- ===== src/Examples.antt =====
-- Concrete upgrades, addons and instances, and the theorems applied to them.
mod Samples
mod Upgrade
mod Advance
mod Line
mod Addon
mod Sync
mod Backup
mod Instance
mod Texts
mod Runs
mod Settings
mod Pass
mod Watch
