-- ===== src/Backup/OneShot/Safe.antt =====
-- The passes over a one-shot backup are safe.
use odoo_k8_operator.Base.{
  String, true, false, ◌&&◌, not, ◌⧺◌, ◌==◌, List, Option, none, some, ◌≡◌, ◌≢◌, inl, inr, refl,
  sym, subst, arith, eq_iff, Option-cases,
}
use odoo_k8_operator.Kube.{ApiError, Reply, got, refused}
use odoo_k8_operator.Kube.Batch.{Job, NewJob}
use odoo_k8_operator.Kube.Retry.{is_not_found, is_already_exists}
use odoo_k8_operator.Errors.{Error, wrap, api, error_text}
use odoo_k8_operator.Machinery.{Machinery}
use odoo_k8_operator.Api.{OdooBackup}
use odoo_k8_operator.Api.Instance.{OdooInstance}
use odoo_k8_operator.Api.Reasons.{
  reason_running, reason_invalid_spec, reason_pending, reason_instance_not_found,
}
use odoo_k8_operator.Phases.{backup_phase_running, backup_phase_succeeded}
use odoo_k8_operator.JobStatus.{job_succeeded, backup_job_failure}
use odoo_k8_operator.Queue.{backup_decide_start}
use odoo_k8_operator.Backup.Validate.{backup_validate_spec}
use odoo_k8_operator.Backup.Validate.Laws.{
  IsDestination, on_pvc, on_s3, backup_validate_spec-IsValid,
}
use odoo_k8_operator.Backup.Settings.{BackupTools, backup_database}
use odoo_k8_operator.Backup.Job.{build_backup_job}
use odoo_k8_operator.Backup.Status.{backup_phase_terminal}
use odoo_k8_operator.Backup.Pass.{BackupReads, write_pass}
use odoo_k8_operator.Backup.OneShot.{
  no_database, running_status, succeeded_status, created_pass, create_pass, node_for, built_pass,
  backup_start, within_grace, failure_message, judge_failure, judge, backup_monitor, queue_pass,
  instance_pass, spec_pass, reconcile_one_shot,
}
use odoo_k8_operator.Backup.Passes.{
  IsStart, IsSafe, stop-IsSafe, if-IsSafe, write_pass-IsSafe, set_pending-IsSafe, fail_pass-IsSafe,
  fail_done-IsSafe,
}

module _ (k : Machinery) (t : BackupTools) (r : BackupReads) where
  running-IsSafe :
      (name : String)
      → IsSafe k t r
          (write_pass k r backup_phase_running reason_running (running_status k t r name) 5)
  unfolding running_status
  running-IsSafe name =
      write_pass-IsSafe k t r _ _ _ 5 (inr (inl refl)) (λ s. refl)
        (λ e. ground (arith, eq_iff backup_phase_running backup_phase_succeeded))

  created-IsSafe :
      (job : NewJob) (answer : Option ApiError)
      → IsStart k t r job
      → IsSafe k t r (created_pass k t r job answer)
  unfolding created_pass
  created-IsSafe job none s =
      let w = running-IsSafe job.name in
      record {
        starts = λ j h. subst (IsStart k t r) (ground arith) s;
        schedules = w.schedules;
        stores = w.stores;
        succeeds = w.succeeds;
        no_panic = w.no_panic;
      }
  created-IsSafe job (some e) s =
      if-IsSafe k t r (is_already_exists e) _ _ (λ h. running-IsSafe job.name)
        (λ h. stop-IsSafe k t r 0 (some (wrap "failed to create backup job: " (api e))))

  create-IsSafe :
      (job : NewJob) (e : Option Error) → IsStart k t r job → IsSafe k t r (create_pass k t r job e)
  unfolding create_pass
  create-IsSafe job none s = created-IsSafe job r.create s
  create-IsSafe job (some e) s = stop-IsSafe k t r 0 (some e)

  judge_failure-IsSafe : (failure : Option String) → IsSafe k t r (judge_failure k t r failure)
  unfolding judge_failure
  judge_failure-IsSafe (some reason) = fail_done-IsSafe k t r (failure_message k t r reason)
  judge_failure-IsSafe none = stop-IsSafe k t r 5 none

  monitor-IsSafe :
      (bk : OdooBackup) (reply : Reply Job)
      → r.job ≡ reply
      → IsSafe k t r (backup_monitor k t r bk reply)
  unfolding backup_monitor judge succeeded_status backup_phase_terminal
  monitor-IsSafe bk (got job) read =
      if-IsSafe k t r (job_succeeded job) _ _
        (λ h.
          write_pass-IsSafe k t r _ _ _ 0 (inr (inr (inr refl))) (λ s. refl)
            (λ e. record { job = job; was_read = read; succeeded = h }))
        (λ h. judge_failure-IsSafe (backup_job_failure job))
  monitor-IsSafe bk (refused e) read =
      if-IsSafe k t r (is_not_found e) _ _
        (λ h.
          if-IsSafe k t r (within_grace k t r bk.status.start_time) _ _
            (λ h. stop-IsSafe k t r 5 none)
            (λ h.
              fail_done-IsSafe k t r ("backup Job " ⧺ bk.status.job_name ⧺ " no longer exists")))
        (λ h. stop-IsSafe k t r 0 (some (api e)))

  -- A backup whose spec is valid has a Job.
  build-some :
      (bk : OdooBackup) (inst : OdooInstance) (database node : String)
      → IsDestination bk.spec.destination
      → build_backup_job t bk inst database node ≢ none
  unfolding build_backup_job
  build-some bk inst database node (on_pvc pvc p s n i) e = ground arith
  build-some bk inst database node (on_s3 s3 p s b c i) e = ground arith

  module _ (bk : OdooBackup) (read : r.backup ≡ got bk) (one_shot : (bk.spec.schedule == "") ≡ true)
      (active : backup_phase_terminal bk.status.phase ≡ false)
      (valid : backup_validate_spec t.parse_quantity bk ≡ none) where
    start-IsSafe :
        (inst : OdooInstance) (all : List OdooBackup)
        → r.instance_reply ≡ got inst
        → r.siblings ≡ got all
        → (backup_decide_start bk all).may_start ≡ true
        → IsSafe k t r (backup_start k t r bk inst)
    unfolding backup_start
    start-IsSafe inst all i s may =
        let database = backup_database bk inst in
        let node = node_for k t r bk inst in
        if-IsSafe k t r (database == "") _ _
          (λ h. fail_pass-IsSafe k t r reason_invalid_spec no_database)
          (λ h. elim (Option-cases (build_backup_job t bk inst database node)) [
            | inl e ↦ absurd (
                build-some bk inst database node
                  (backup_validate_spec-IsValid t.parse_quantity bk valid).destination e)
            | inr (job, e) ↦
                subst (λ o. IsSafe k t r (built_pass k t r o)) (sym e)
                  (create-IsSafe job r.set_owner (record {
                    backup = bk;
                    inst = inst;
                    siblings = all;
                    was_read = read;
                    one_shot = one_shot;
                    not_terminal = active;
                    valid = valid;
                    instance_read = i;
                    siblings_read = s;
                    may_start = may;
                    database = h;
                    built = e;
                  }))
          ])

    queue-IsSafe :
        (inst : OdooInstance) (reply : Reply (List OdooBackup))
        → r.instance_reply ≡ got inst
        → r.siblings ≡ reply
        → IsSafe k t r (queue_pass k t r bk inst reply)
    unfolding queue_pass
    queue-IsSafe inst (refused e) i s = stop-IsSafe k t r 0 (some (api e))
    queue-IsSafe inst (got all) i s =
        if-IsSafe k t r (backup_decide_start bk all).may_start _ _
          (λ may. start-IsSafe inst all i s may) (λ h. set_pending-IsSafe k t r reason_pending _)

    instance-IsSafe :
        (reply : Reply OdooInstance)
        → r.instance_reply ≡ reply
        → IsSafe k t r (instance_pass k t r bk reply)
    unfolding instance_pass
    instance-IsSafe (got inst) i = queue-IsSafe inst r.siblings i refl
    instance-IsSafe (refused e) i =
        if-IsSafe k t r (is_not_found e) _ _
          (λ h. set_pending-IsSafe k t r reason_instance_not_found "waiting for OdooInstance")
          (λ h. stop-IsSafe k t r 0 (some (api e)))

  spec-IsSafe :
      (bk : OdooBackup) (e : Option Error)
      → r.backup ≡ got bk
      → (bk.spec.schedule == "") ≡ true
      → backup_phase_terminal bk.status.phase ≡ false
      → backup_validate_spec t.parse_quantity bk ≡ e
      → IsSafe k t r (spec_pass k t r bk e)
  unfolding spec_pass
  spec-IsSafe bk (some e) read one active valid =
      fail_pass-IsSafe k t r reason_invalid_spec (error_text e)
  spec-IsSafe bk none read one active valid =
      instance-IsSafe bk read one active valid r.instance_reply refl

  pub one_shot-IsSafe :
      (bk : OdooBackup)
      → r.backup ≡ got bk
      → (bk.spec.schedule == "") ≡ true
      → IsSafe k t r (reconcile_one_shot k t r bk)
  unfolding reconcile_one_shot
  one_shot-IsSafe bk read one =
      if-IsSafe k t r (backup_phase_terminal bk.status.phase) _ _ (λ h. stop-IsSafe k t r 0 none)
        (λ active.
          if-IsSafe k t r
            ((bk.status.phase == backup_phase_running) && not (bk.status.job_name == "")) _ _
            (λ h. monitor-IsSafe bk r.job refl)
            (λ h. spec-IsSafe bk (backup_validate_spec t.parse_quantity bk) read one active refl))
