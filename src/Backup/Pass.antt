-- ===== src/Backup/Pass.antt =====
-- What a pass of the OdooBackup reconciler reads and does (internal/controller/
-- odoobackup_controller.go), and the passes that end at once or with a status write. A pass is a
-- function of the answers that its API calls get and of the clock, which is read once.
use odoo_k8_operator.Base.{ℕ, String, Bool, true, false, List, [], Option, none, some}
use odoo_k8_operator.Kube.{ApiError, Reply, Pod, Time}
use odoo_k8_operator.Kube.Batch.{Labels, Job, NewJob, CronJobSpec, NewCronJob}
use odoo_k8_operator.Kube.Retry.{Exchange}
use odoo_k8_operator.PodLogs.{LogReads}
use odoo_k8_operator.Errors.{Error}
use odoo_k8_operator.Machinery.{Machinery}
use odoo_k8_operator.Api.{OdooBackup}
use odoo_k8_operator.Api.Instance.{OdooInstance}
use odoo_k8_operator.Api.Reasons.{reason_job_failed}
use odoo_k8_operator.Phases.{backup_phase_pending, backup_phase_failed}
use odoo_k8_operator.Events.{Recorded}
use odoo_k8_operator.Backup.Status.{Mutate, backup_write_status, backup_write_events}

-- batchv1.CronJob, as it is read
pub record CronJob : Type 0 where
  pub name : String
  pub labels : Labels
  pub annotations : Labels
  pub spec : CronJobSpec
  pub last_schedule_time : Option Time
  pub last_successful_time : Option Time

-- The answers that a pass gets.
pub record BackupReads : Type 0 where
  pub backup : Reply OdooBackup
  pub instance_reply : Reply OdooInstance
  pub siblings : Reply (List OdooBackup)
  pub pods : Reply (List Pod)
  -- SetControllerReference
  pub set_owner : Option Error
  pub create : Option ApiError
  pub job : Reply Job
  -- The CronJob, and the answers to its Create and Update
  pub cron : Reply CronJob
  pub create_cron : Option ApiError
  pub update_cron : Option ApiError
  pub logs : LogReads
  pub writes : List (Exchange OdooBackup)
  pub recorder : Bool
  pub now : Time

-- What a pass did: the writes that went through, and the result.
pub record BackupPass : Type 0 where
  pub created : Option NewJob
  -- The CronJob that was created, or that the stored one was replaced by
  pub cron_written : Option NewCronJob
  pub written : Option (OdooBackup × OdooBackup)
  pub events : List Recorded
  -- RequeueAfter, in seconds; 0 where it is unset
  pub requeue_after : ℕ
  pub error : Option Error
  -- The pass followed a nil pointer.
  pub panicked : Bool

abbrev pub backup_requeue_pending : ℕ
backup_requeue_pending = 10

abbrev pub backup_requeue_running : ℕ
backup_requeue_running = 5

abbrev pub backup_requeue_scheduled : ℕ
backup_requeue_scheduled = 600

abbrev pub backup_job_grace : ℕ
backup_job_grace = 30

-- A pass that ends with nothing done.
unfoldable pub stop : ℕ → Option Error → BackupPass
stop requeue e = record {
  created = none;
  cron_written = none;
  written = none;
  events = [];
  requeue_after = requeue;
  error = e;
  panicked = false;
}

unfoldable pub panic : BackupPass
unfolding stop
panic = record (stop 0 none) { panicked = true }

module _ (k : Machinery) (r : BackupReads) where
  -- A pass that ends with a status write.
  unfoldable pub write_pass : String → String → Mutate → ℕ → BackupPass
  unfolding backup_write_status backup_write_events stop
  write_pass target reason mutate requeue =
      let w = backup_write_status k target reason mutate r.writes in
      record (stop requeue w.error) {
        written = w.written;
        events = backup_write_events r.recorder w.written;
      }

  -- backupSetPending
  unfoldable pub backup_set_pending : String → String → BackupPass
  unfolding write_pass
  backup_set_pending reason msg =
      write_pass backup_phase_pending reason
        (λ s. record s { phase = backup_phase_pending; message = msg }) backup_requeue_pending

  -- A write of the Failed phase with a message.
  unfoldable pub fail_pass : String → String → BackupPass
  unfolding write_pass
  fail_pass reason msg =
      write_pass backup_phase_failed reason
        (λ s. record s { phase = backup_phase_failed; message = msg }) 0

  -- The same with the time of completion.
  unfoldable pub fail_done_pass : String → BackupPass
  unfolding write_pass
  fail_done_pass msg =
      write_pass backup_phase_failed reason_job_failed
        (λ s. record s { phase = backup_phase_failed; message = msg; completion_time = some r.now })
        0
