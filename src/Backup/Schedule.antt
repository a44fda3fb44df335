-- ===== src/Backup/Schedule.antt =====
-- reconcileScheduled and backupApplyCronJob of internal/controller/odoobackup_controller.go.
pub mod Apply
pub mod Match
pub mod Safe
use odoo_k8_operator.Base.{String, Bool, ◌&&◌, ◌⧺◌, ◌==◌, if◌then◌else◌, [], Option, none, some}
use odoo_k8_operator.Kube.{ApiError, Reply, got, refused, Time}
use odoo_k8_operator.Kube.Batch.{NewCronJob, label_of}
use odoo_k8_operator.Kube.Retry.{is_not_found, is_already_exists, is_invalid}
use odoo_k8_operator.Errors.{Error, api, api_text, error_text}
use odoo_k8_operator.Machinery.{Machinery}
use odoo_k8_operator.Api.{OdooBackup, OdooBackupStatus}
use odoo_k8_operator.Api.Instance.{OdooInstance}
use odoo_k8_operator.Api.Reasons.{
  reason_invalid_spec, reason_instance_not_found, reason_scheduled, reason_cron_job_rejected,
}
use odoo_k8_operator.Phases.{backup_phase_failed, backup_phase_scheduled}
use odoo_k8_operator.Backup.Validate.{backup_validate_spec}
use odoo_k8_operator.Backup.Settings.{BackupTools, backup_database, backup_hash_annotation}
use odoo_k8_operator.Backup.Job.{build_backup_cron_job}
use odoo_k8_operator.Backup.Status.{Mutate}
use odoo_k8_operator.Backup.Pass.{
  CronJob, BackupReads, BackupPass, stop, panic, write_pass, backup_set_pending, fail_pass,
  backup_requeue_scheduled,
}
use odoo_k8_operator.Backup.OneShot.{no_database, node_for}

-- The CronJob that a call of backupApplyCronJob returns, with what it wrote; or its error.
pub data Applied : Type 0 where
  applied : CronJob → Option NewCronJob → Applied
  apply_error : ApiError → Applied

-- A CronJob with no status yet.
unfoldable pub fresh : NewCronJob → CronJob
fresh d = record {
  name = d.name;
  labels = d.labels;
  annotations = d.annotations;
  spec = d.spec;
  last_schedule_time = none;
  last_successful_time = none;
}

-- The stored CronJob with the labels, annotations and spec that are wanted.
unfoldable pub replaced : CronJob → NewCronJob → CronJob
replaced cur d = record cur { labels = d.labels; annotations = d.annotations; spec = d.spec }

create_cron : NewCronJob → Option ApiError → Applied
unfolding fresh
create_cron desired none = applied (fresh desired) (some desired)
create_cron desired (some e) =
    if is_already_exists e then applied (fresh desired) none else apply_error e

update_cron : CronJob → NewCronJob → Option ApiError → Applied
unfolding replaced
update_cron cur desired none = applied (replaced cur desired) (some desired)
update_cron cur desired (some e) = apply_error e

-- The stored CronJob has the hash and the labels that are wanted; its spec is not looked at.
unfoldable pub is_up_to_date : BackupTools → CronJob → NewCronJob → Bool
unfolding label_of
is_up_to_date t cur desired =
    label_of cur.annotations backup_hash_annotation
      == label_of desired.annotations backup_hash_annotation
    && t.labels_equal cur.labels desired.labels

module _ (k : Machinery) (t : BackupTools) (r : BackupReads) where
  -- backupApplyCronJob
  unfoldable pub backup_apply_cron_job : NewCronJob → Reply CronJob → Applied
  unfolding create_cron update_cron is_up_to_date
  backup_apply_cron_job desired (refused e) =
      if is_not_found e then create_cron desired r.create_cron else apply_error e
  backup_apply_cron_job desired (got cur) =
      if is_up_to_date t cur desired
      then applied cur none
      else update_cron cur desired r.update_cron

  scheduled_status : CronJob → Mutate
  scheduled_status cron s = record s {
    phase = backup_phase_scheduled;
    cron_job_name = cron.name;
    message = "";
    last_schedule_time = cron.last_schedule_time;
    last_successful_time = cron.last_successful_time;
  }

  rejected_status : String → ApiError → Mutate
  unfolding api_text
  rejected_status name e s = record s {
    phase = backup_phase_failed;
    cron_job_name = name;
    message = "CronJob was rejected: " ⧺ api_text e;
  }

  -- reconcileScheduled after backupApplyCronJob
  applied_pass : NewCronJob → Applied → BackupPass
  unfolding scheduled_status rejected_status
  applied_pass desired (applied cron wrote) =
      record (write_pass k r backup_phase_scheduled reason_scheduled (scheduled_status cron)
        backup_requeue_scheduled) { cron_written = wrote }
  applied_pass desired (apply_error e) =
      if is_invalid e
      then write_pass k r backup_phase_failed reason_cron_job_rejected
          (rejected_status desired.name e) 0
      else stop 0 (some (api e))

  owned_pass : NewCronJob → Option Error → BackupPass
  unfolding applied_pass backup_apply_cron_job
  owned_pass desired (some e) = stop 0 (some e)
  owned_pass desired none = applied_pass desired (backup_apply_cron_job desired r.cron)

  built_pass : Option NewCronJob → BackupPass
  unfolding owned_pass
  built_pass none = panic
  built_pass (some desired) = owned_pass desired r.set_owner

  database_pass : OdooBackup → OdooInstance → BackupPass
  unfolding built_pass
  database_pass bk inst =
      let database = backup_database bk inst in
      if database == ""
      then fail_pass k r reason_invalid_spec no_database
      else built_pass (build_backup_cron_job t bk inst database (node_for k t r bk inst))

  instance_pass : OdooBackup → Reply OdooInstance → BackupPass
  unfolding database_pass
  instance_pass bk (got inst) = database_pass bk inst
  instance_pass bk (refused e) =
      if is_not_found e
      then backup_set_pending k r reason_instance_not_found "waiting for OdooInstance"
      else stop 0 (some (api e))

  spec_pass : OdooBackup → Option Error → BackupPass
  unfolding instance_pass
  spec_pass bk (some e) = fail_pass k r reason_invalid_spec (error_text e)
  spec_pass bk none = instance_pass bk r.instance_reply

  -- reconcileScheduled
  unfoldable pub reconcile_scheduled : OdooBackup → BackupPass
  unfolding spec_pass
  reconcile_scheduled bk = spec_pass bk (backup_validate_spec t.parse_quantity bk)
