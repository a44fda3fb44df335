-- ===== src/Backup/Passes.antt =====
-- What the passes over an OdooBackup may do: the facts that each pass keeps, of those that end at
-- once or with a status write.
use odoo_k8_operator.Base.{
  ℕ, String, Bool, true, false, ◌==◌, if◌then◌else◌, List, Option, none, some, ◌≡◌, inl, inr, refl,
  sym, ◌∙◌, arith, eq_iff,
}
use odoo_k8_operator.Kube.{ApiError, got, refused}
use odoo_k8_operator.Kube.Batch.{Job, NewJob, NewCronJob}
use odoo_k8_operator.Kube.Retry.{is_not_found}
use odoo_k8_operator.Errors.{Error}
use odoo_k8_operator.Machinery.{Machinery}
use odoo_k8_operator.Api.{OdooBackup, OdooBackupStatus}
use odoo_k8_operator.Api.Instance.{OdooInstance}
use odoo_k8_operator.Phases.{backup_phase_pending, backup_phase_succeeded, backup_phase_failed}
use odoo_k8_operator.JobStatus.{job_succeeded}
use odoo_k8_operator.Queue.{backup_decide_start}
use odoo_k8_operator.Backup.Validate.{backup_validate_spec}
use odoo_k8_operator.Backup.Settings.{BackupTools, backup_database}
use odoo_k8_operator.Backup.Job.{build_backup_job, build_backup_cron_job}
use odoo_k8_operator.Backup.Status.{
  Mutate, IsTarget, Wrote, backup_phase_terminal, backup_write_status-Wrote,
}
use odoo_k8_operator.Backup.Pass.{
  CronJob, BackupReads, BackupPass, stop, write_pass, backup_set_pending, fail_pass, fail_done_pass,
}
use odoo_k8_operator.Backup.OneShot.{node_for}
use odoo_k8_operator.Backup.Schedule.Match.{Matches}

module _ (k : Machinery) (t : BackupTools) (r : BackupReads) where
  -- The pass read a one-shot backup that may start, and the Job is the one built from it.
  pub record IsStart (job : NewJob) : Type 0 where
    pub backup : OdooBackup
    pub inst : OdooInstance
    pub siblings : List OdooBackup
    pub was_read : r.backup ≡ got backup
    pub one_shot : (backup.spec.schedule == "") ≡ true
    pub not_terminal : backup_phase_terminal backup.status.phase ≡ false
    pub valid : backup_validate_spec t.parse_quantity backup ≡ none
    pub instance_read : r.instance_reply ≡ got inst
    pub siblings_read : r.siblings ≡ got siblings
    pub may_start : (backup_decide_start backup siblings).may_start ≡ true
    pub database : (backup_database backup inst == "") ≡ false
    pub built :
        build_backup_job t backup inst (backup_database backup inst) (node_for k t r backup inst)
        ≡ some job

  -- The CronJob that was read is not there, or has another hash annotation or other labels than the
  -- wanted one.
  pub data IsOutdated (wanted : NewCronJob) : Type 0 where
    missing : (e : ApiError) → r.cron ≡ refused e → is_not_found e ≡ true → IsOutdated wanted
    differs : (cur : CronJob) → r.cron ≡ got cur → ¬ (Matches t cur wanted) → IsOutdated wanted

  -- The pass read a scheduled backup, and the CronJob is the one built from it, where the one that
  -- was read is not there or another.
  pub record IsSchedule (wanted : NewCronJob) : Type 0 where
    pub backup : OdooBackup
    pub inst : OdooInstance
    pub was_read : r.backup ≡ got backup
    pub scheduled : (backup.spec.schedule == "") ≡ false
    pub valid : backup_validate_spec t.parse_quantity backup ≡ none
    pub instance_read : r.instance_reply ≡ got inst
    pub database : (backup_database backup inst == "") ≡ false
    pub built :
        build_backup_cron_job t backup inst
          (backup_database backup inst)
          (node_for k t r backup inst)
        ≡ some wanted
    pub outdated : IsOutdated wanted

  -- The pass read a Job that succeeded.
  pub record IsSuccess : Type 0 where
    pub job : Job
    pub was_read : r.job ≡ got job
    pub succeeded : job_succeeded job ≡ true

  pub record IsSafe (p : BackupPass) : Type 0 where
    pub starts : (job : NewJob) → p.created ≡ some job → IsStart job
    pub schedules : (wanted : NewCronJob) → p.cron_written ≡ some wanted → IsSchedule wanted
    pub stores : (cur new : OdooBackup) → p.written ≡ some (cur, new) → Wrote r.writes cur new
    pub succeeds :
        (cur new : OdooBackup)
        → p.written ≡ some (cur, new)
        → new.status.phase ≡ backup_phase_succeeded
        → IsSuccess
    pub no_panic : p.panicked ≡ false

  pub stop-IsSafe : (n : ℕ) (e : Option Error) → IsSafe (stop n e)
  unfolding stop
  stop-IsSafe n e = record {
    starts = λ j h. ground arith;
    schedules = λ j h. ground arith;
    stores = λ c n h. cc;
    succeeds = λ c n h p. ground arith;
    no_panic = refl;
  }

  pub if-IsSafe :
      (b : Bool) (p q : BackupPass)
      → (b ≡ true → IsSafe p)
      → (b ≡ false → IsSafe q)
      → IsSafe (if b then p else q)
  if-IsSafe true p q f g = f refl
  if-IsSafe false p q f g = g refl

  pub write_pass-IsSafe :
      (target reason : String) (mutate : Mutate) (n : ℕ)
      → IsTarget target
      → ((s : OdooBackupStatus) → (mutate s).phase ≡ target)
      → (target ≡ backup_phase_succeeded → IsSuccess)
      → IsSafe (write_pass k r target reason mutate n)
  unfolding write_pass stop
  write_pass-IsSafe target reason mutate n goal m s = record {
    starts = λ j h. ground arith;
    schedules = λ j h. ground arith;
    stores =
        λ cur new h. (backup_write_status-Wrote k target reason mutate r.writes cur new goal m h).0;
    succeeds = λ cur new h p.
        s (sym (backup_write_status-Wrote k target reason mutate r.writes cur new goal m h).1 ∙ p);
    no_panic = refl;
  }

  pub set_pending-IsSafe : (reason msg : String) → IsSafe (backup_set_pending k r reason msg)
  unfolding backup_set_pending
  set_pending-IsSafe reason msg =
      write_pass-IsSafe _ reason _ 10 (inl refl) (λ s. refl)
        (λ e. ground (arith, eq_iff backup_phase_pending backup_phase_succeeded))

  -- A write of the Failed phase.
  pub failed-IsSafe :
      (reason : String) (mutate : Mutate)
      → ((s : OdooBackupStatus) → (mutate s).phase ≡ backup_phase_failed)
      → IsSafe (write_pass k r backup_phase_failed reason mutate 0)
  unfolding backup_phase_terminal
  failed-IsSafe reason mutate m =
      write_pass-IsSafe _ reason mutate 0 (inr (inr (inr refl))) m
        (λ e. ground (arith, eq_iff backup_phase_failed backup_phase_succeeded))

  pub fail_pass-IsSafe : (reason msg : String) → IsSafe (fail_pass k r reason msg)
  unfolding fail_pass
  fail_pass-IsSafe reason msg = failed-IsSafe reason _ (λ s. refl)

  pub fail_done-IsSafe : (msg : String) → IsSafe (fail_done_pass k r msg)
  unfolding fail_done_pass
  fail_done-IsSafe msg = failed-IsSafe _ _ (λ s. refl)
