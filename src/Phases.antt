-- ===== src/Phases.antt =====
-- The phases of the four kinds (api/v1, internal/controller).
use odoo_k8_operator.Base.{String}

abbrev pub upgrade_phase_pending : String
upgrade_phase_pending = "Pending"

abbrev pub upgrade_phase_running : String
upgrade_phase_running = "Running"

abbrev pub upgrade_phase_succeeded : String
upgrade_phase_succeeded = "Succeeded"

abbrev pub upgrade_phase_failed : String
upgrade_phase_failed = "Failed"

abbrev pub backup_phase_pending : String
backup_phase_pending = "Pending"

abbrev pub backup_phase_running : String
backup_phase_running = "Running"

abbrev pub backup_phase_succeeded : String
backup_phase_succeeded = "Succeeded"

abbrev pub backup_phase_failed : String
backup_phase_failed = "Failed"

abbrev pub backup_phase_scheduled : String
backup_phase_scheduled = "Scheduled"

abbrev pub phase_failed : String
phase_failed = "Failed"

abbrev pub phase_pending : String
phase_pending = "Pending"

abbrev pub phase_synced : String
phase_synced = "Synced"

abbrev pub phase_syncing : String
phase_syncing = "Syncing"

abbrev pub phase_creating : String
phase_creating = "Creating"

abbrev pub phase_running : String
phase_running = "Running"

abbrev pub gate_phase_upgrading : String
gate_phase_upgrading = "Upgrading"

abbrev pub gate_phase_upgrade_failed : String
gate_phase_upgrade_failed = "UpgradeFailed"

abbrev pub phase_initializing : String
phase_initializing = "Initializing"

abbrev pub phase_init_failed : String
phase_init_failed = "InitializationFailed"
