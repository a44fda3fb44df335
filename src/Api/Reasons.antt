-- ===== src/Api/Reasons.antt =====
-- The condition types and reasons of api/v1/conditions.go.
use odoo_k8_operator.Base.{String}

abbrev pub type_ready : String
type_ready = "Ready"

abbrev pub type_progressing : String
type_progressing = "Progressing"

abbrev pub type_degraded : String
type_degraded = "Degraded"

abbrev pub type_succeeded : String
type_succeeded = "Succeeded"

abbrev pub type_cron_ready : String
type_cron_ready = "CronReady"

abbrev pub reason_all_replicas_ready : String
reason_all_replicas_ready = "AllReplicasReady"

abbrev pub reason_deployment_not_ready : String
reason_deployment_not_ready = "DeploymentNotReady"

abbrev pub reason_reconciling : String
reason_reconciling = "Reconciling"

abbrev pub reason_reconciled : String
reason_reconciled = "Reconciled"

abbrev pub reason_as_expected : String
reason_as_expected = "AsExpected"

abbrev pub reason_reconcile_error : String
reason_reconcile_error = "ReconcileError"

abbrev pub reason_upgrading : String
reason_upgrading = "Upgrading"

abbrev pub reason_upgrade_failed : String
reason_upgrade_failed = "UpgradeFailed"

abbrev pub reason_missing_secret : String
reason_missing_secret = "MissingSecret"

abbrev pub reason_invalid_config : String
reason_invalid_config = "InvalidConfig"

abbrev pub reason_initializing : String
reason_initializing = "Initializing"

abbrev pub reason_initialization_failed : String
reason_initialization_failed = "InitializationFailed"

abbrev pub reason_cron_running : String
reason_cron_running = "CronRunning"

abbrev pub reason_cron_not_ready : String
reason_cron_not_ready = "CronNotReady"

abbrev pub reason_cron_pending : String
reason_cron_pending = "CronPending"

abbrev pub reason_synced : String
reason_synced = "Synced"

abbrev pub reason_syncing : String
reason_syncing = "Syncing"

abbrev pub reason_pending : String
reason_pending = "Pending"

abbrev pub reason_instance_not_found : String
reason_instance_not_found = "InstanceNotFound"

abbrev pub reason_volume_not_bound : String
reason_volume_not_bound = "VolumeNotBound"

abbrev pub reason_sync_failed : String
reason_sync_failed = "SyncFailed"

abbrev pub reason_invalid_spec : String
reason_invalid_spec = "InvalidSpec"

abbrev pub reason_module_conflict : String
reason_module_conflict = "ModuleConflict"

abbrev pub reason_job_conflict : String
reason_job_conflict = "JobConflict"

abbrev pub reason_running : String
reason_running = "Running"

abbrev pub reason_complete : String
reason_complete = "Complete"

abbrev pub reason_job_failed : String
reason_job_failed = "JobFailed"

abbrev pub reason_scheduled : String
reason_scheduled = "Scheduled"

abbrev pub reason_cron_job_rejected : String
reason_cron_job_rejected = "CronJobRejected"
