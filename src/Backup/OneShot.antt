-- ===== src/Backup/OneShot.antt =====
-- reconcileOneShot, backupStart and backupMonitor of internal/controller/odoobackup_controller.go.
pub mod Safe
use odoo_k8_operator.Base.{
  ℕ, ◌-◌, String, Bool, true, false, ◌&&◌, not, ◌⧺◌, ◌==◌, ltb, if◌then◌else◌, List, Option, none,
  some, quote,
}
use odoo_k8_operator.Kube.{ApiError, Reply, got, refused, Time}
use odoo_k8_operator.Kube.Batch.{Job, NewJob}
use odoo_k8_operator.Kube.Retry.{is_not_found, is_already_exists}
use odoo_k8_operator.Errors.{Error, api, wrap, error_text}
use odoo_k8_operator.Machinery.{Machinery}
use odoo_k8_operator.Api.{OdooBackup, OdooBackupStatus}
use odoo_k8_operator.Api.Instance.{OdooInstance}
use odoo_k8_operator.Api.Reasons.{
  reason_invalid_spec, reason_instance_not_found, reason_pending, reason_running, reason_complete,
}
use odoo_k8_operator.Phases.{backup_phase_running, backup_phase_succeeded}
use odoo_k8_operator.JobStatus.{job_succeeded, backup_job_failure, job_completion, odoo_pod_node}
use odoo_k8_operator.Queue.{backup_decide_start}
use odoo_k8_operator.Backup.Validate.{backup_validate_spec}
use odoo_k8_operator.Backup.Settings.{
  BackupTools, backup_database, backup_include_filestore, backup_needs_node_pin,
}
use odoo_k8_operator.Backup.Job.{build_backup_job}
use odoo_k8_operator.PodLogs.{backup_pod_logs}
use odoo_k8_operator.Backup.Logs.{backup_parse_result, backup_log_tail}
use odoo_k8_operator.Backup.Status.{Mutate, backup_phase_terminal}
use odoo_k8_operator.Backup.Pass.{
  BackupReads, BackupPass, stop, panic, write_pass, backup_set_pending, fail_pass, fail_done_pass,
  backup_requeue_running, backup_job_grace,
}

abbrev pub no_database : String
no_database = "no database configured: set spec.database or the instance's postgres.database"

module _ (k : Machinery) (t : BackupTools) (r : BackupReads) where
  keep_or : Option Time → Option Time
  keep_or none = some r.now
  keep_or (some start) = some start

  -- The write that marks the backup Running.
  pub running_status : String → Mutate
  unfolding keep_or
  running_status job_name s = record s {
    phase = backup_phase_running;
    job_name = job_name;
    message = "";
    completion_time = none;
    start_time = keep_or s.start_time;
  }

  -- backupStart after Create
  created_pass : NewJob → Option ApiError → BackupPass
  unfolding running_status
  created_pass job answer =
      let p =
        write_pass k r backup_phase_running reason_running (running_status job.name)
          backup_requeue_running in
      elim answer [
        | none ↦ record p { created = some job }
        | some e ↦
            if is_already_exists e
            then p
            else stop 0 (some (wrap "failed to create backup job: " (api e)))
      ]

  -- backupStart from the owner reference on
  create_pass : NewJob → Option Error → BackupPass
  unfolding created_pass
  create_pass job (some e) = stop 0 (some e)
  create_pass job none = created_pass job r.create

  -- The node to pin the pod to.
  unfoldable pub node_for : OdooBackup → OdooInstance → String
  node_for bk inst =
      if backup_needs_node_pin inst.spec (backup_include_filestore bk)
      then odoo_pod_node r.pods
      else ""

  built_pass : Option NewJob → BackupPass
  unfolding create_pass
  built_pass none = panic
  built_pass (some job) = create_pass job r.set_owner

  -- backupStart
  unfoldable pub backup_start : OdooBackup → OdooInstance → BackupPass
  unfolding built_pass node_for
  backup_start bk inst =
      let database = backup_database bk inst in
      if database == ""
      then fail_pass k r reason_invalid_spec no_database
      else built_pass (build_backup_job t bk inst database (node_for bk inst))

  within_grace : Option Time → Bool
  within_grace none = false
  within_grace (some start) = ltb (r.now - start) backup_job_grace

  failure_message : String → String
  unfolding backup_log_tail backup_pod_logs
  failure_message reason =
      let tail =
        backup_log_tail (backup_pod_logs r.logs "backup") (backup_pod_logs r.logs "dump") in
      if not (tail == "") then reason ⧺ "\n--- last log lines ---\n" ⧺ tail else reason

  -- The write that marks the backup Succeeded.
  pub succeeded_status : Job → Mutate
  unfolding backup_parse_result backup_pod_logs
  succeeded_status job s = record s {
    phase = backup_phase_succeeded;
    message = "";
    completion_time = some (job_completion r.now job);
    last_backup = backup_parse_result (backup_pod_logs r.logs "backup");
  }

  judge_failure : Option String → BackupPass
  unfolding failure_message
  judge_failure (some reason) = fail_done_pass k r (failure_message reason)
  judge_failure none = stop backup_requeue_running none

  -- backupMonitor where the Job was read
  judge : Job → BackupPass
  unfolding judge_failure succeeded_status
  judge job =
      if job_succeeded job
      then write_pass k r backup_phase_succeeded reason_complete (succeeded_status job) 0
      else judge_failure (backup_job_failure job)

  -- backupMonitor
  unfoldable pub backup_monitor : OdooBackup → Reply Job → BackupPass
  unfolding judge within_grace
  backup_monitor bk (got job) = judge job
  backup_monitor bk (refused e) =
      if is_not_found e
      then (if within_grace bk.status.start_time
          then stop backup_requeue_running none
          else fail_done_pass k r ("backup Job " ⧺ bk.status.job_name ⧺ " no longer exists"))
      else stop 0 (some (api e))

  -- reconcileOneShot once the instance is there: the queue, then the start.
  queue_pass : OdooBackup → OdooInstance → Reply (List OdooBackup) → BackupPass
  unfolding backup_start
  queue_pass bk inst (refused e) = stop 0 (some (api e))
  queue_pass bk inst (got all) =
      let decision = backup_decide_start bk all in
      if decision.may_start
      then backup_start bk inst
      else backup_set_pending k r reason_pending
          ("waiting for backup " ⧺ quote decision.blocked_by ⧺ " on the same instance to finish")

  instance_pass : OdooBackup → Reply OdooInstance → BackupPass
  unfolding queue_pass
  instance_pass bk (got inst) = queue_pass bk inst r.siblings
  instance_pass bk (refused e) =
      if is_not_found e
      then backup_set_pending k r reason_instance_not_found "waiting for OdooInstance"
      else stop 0 (some (api e))

  spec_pass : OdooBackup → Option Error → BackupPass
  unfolding instance_pass
  spec_pass bk (some e) = fail_pass k r reason_invalid_spec (error_text e)
  spec_pass bk none = instance_pass bk r.instance_reply

  -- reconcileOneShot
  unfoldable pub reconcile_one_shot : OdooBackup → BackupPass
  unfolding backup_monitor spec_pass
  reconcile_one_shot bk =
      if backup_phase_terminal bk.status.phase
      then stop 0 none
      else if bk.status.phase == backup_phase_running && not (bk.status.job_name == "")
      then backup_monitor bk r.job
      else spec_pass bk (backup_validate_spec t.parse_quantity bk)
