-- ===== src/Backup/Schedule/Safe.antt =====
-- The passes over a scheduled backup are safe.
use odoo_k8_operator.Base.{
  String, false, ◌==◌, Option, none, some, ◌≡◌, ◌≢◌, inl, inr, refl, sym, subst, ap, arith, eq_iff,
  Option-cases, Bool-cases,
}
use odoo_k8_operator.Kube.{Reply, got, refused}
use odoo_k8_operator.Kube.Batch.{NewCronJob}
use odoo_k8_operator.Kube.Retry.{is_not_found, is_invalid}
use odoo_k8_operator.Errors.{Error, api, error_text}
use odoo_k8_operator.Machinery.{Machinery}
use odoo_k8_operator.Api.{OdooBackup}
use odoo_k8_operator.Api.Instance.{OdooInstance}
use odoo_k8_operator.Api.Reasons.{
  reason_invalid_spec, reason_instance_not_found, reason_scheduled, reason_cron_job_rejected,
}
use odoo_k8_operator.Phases.{backup_phase_scheduled, backup_phase_succeeded}
use odoo_k8_operator.Backup.Validate.{backup_validate_spec}
use odoo_k8_operator.Backup.Validate.Laws.{
  IsDestination, on_pvc, on_s3, backup_validate_spec-IsValid,
}
use odoo_k8_operator.Backup.Settings.{BackupTools, backup_database}
use odoo_k8_operator.Backup.Job.{build_backup_cron_job}
use odoo_k8_operator.Backup.Pass.{CronJob, BackupReads, write_pass}
use odoo_k8_operator.Backup.OneShot.{no_database, node_for}
use odoo_k8_operator.Backup.Schedule.Match.{outdated-not-Matches}
use odoo_k8_operator.Backup.Schedule.{
  Applied, applied, apply_error, is_up_to_date, backup_apply_cron_job, scheduled_status,
  rejected_status, applied_pass, owned_pass, built_pass, database_pass, instance_pass, spec_pass,
  reconcile_scheduled,
}
use odoo_k8_operator.Backup.Passes.{
  IsOutdated, missing, differs, IsSchedule, IsSafe, stop-IsSafe, if-IsSafe, write_pass-IsSafe,
  set_pending-IsSafe, failed-IsSafe, fail_pass-IsSafe,
}

module _ (k : Machinery) (t : BackupTools) (r : BackupReads) where
  -- What the call wrote is the wanted CronJob, and the one that was read is missing or differs.
  apply-IsOutdated :
      (wanted d : NewCronJob) (reply : Reply CronJob) (cron : CronJob)
      → r.cron ≡ reply
      → backup_apply_cron_job k t r wanted reply ≡ applied cron (some d)
      → (d ≡ wanted) × IsOutdated k t r wanted
  unfolding backup_apply_cron_job
  apply-IsOutdated wanted d (refused e) cron read h = elim (Bool-cases (is_not_found e)) [
    | inl x ↦ (ground arith, missing e read x)
    | inr x ↦ absurd (ground arith)
  ]
  apply-IsOutdated wanted d (got cur) cron read h = elim (Bool-cases (is_up_to_date t cur wanted)) [
    | inl x ↦ absurd (ground arith)
    | inr x ↦ (ground arith, differs cur read (outdated-not-Matches t wanted cur x))
  ]

  scheduled_write-IsSafe :
      (cron : CronJob)
      → IsSafe k t r
          (write_pass k r backup_phase_scheduled reason_scheduled (scheduled_status k t r cron) 600)
  unfolding scheduled_status
  scheduled_write-IsSafe cron =
      write_pass-IsSafe k t r _ _ _ 600 (inr (inr (inl refl))) (λ s. refl)
        (λ e. ground (arith, eq_iff backup_phase_scheduled backup_phase_succeeded))

  applied-IsSafe :
      (wanted : NewCronJob) (a : Applied)
      → ((d : NewCronJob) (cron : CronJob) → a ≡ applied cron (some d) → IsSchedule k t r d)
      → IsSafe k t r (applied_pass k t r wanted a)
  unfolding applied_pass rejected_status
  applied-IsSafe wanted (applied cron wrote) s =
      let w = scheduled_write-IsSafe cron in
      record {
        starts = w.starts;
        schedules = λ d h. s d cron (ap (applied cron) h);
        stores = w.stores;
        succeeds = w.succeeds;
        no_panic = w.no_panic;
      }
  applied-IsSafe wanted (apply_error e) s =
      if-IsSafe k t r (is_invalid e) _ _
        (λ h. failed-IsSafe k t r reason_cron_job_rejected _ (λ s. refl))
        (λ h. stop-IsSafe k t r 0 (some (api e)))

  owned-IsSafe :
      (wanted : NewCronJob) (e : Option Error)
      → (IsOutdated k t r wanted → IsSchedule k t r wanted)
      → IsSafe k t r (owned_pass k t r wanted e)
  unfolding owned_pass
  owned-IsSafe wanted (some e) s = stop-IsSafe k t r 0 (some e)
  owned-IsSafe wanted none s =
      applied-IsSafe wanted (backup_apply_cron_job k t r wanted r.cron) (λ d cron h.
        let (e, o) = apply-IsOutdated wanted d r.cron cron refl h in
        subst (IsSchedule k t r) (sym e) (s o))

  build-some :
      (bk : OdooBackup) (inst : OdooInstance) (database node : String)
      → IsDestination bk.spec.destination
      → build_backup_cron_job t bk inst database node ≢ none
  unfolding build_backup_cron_job
  build-some bk inst database node (on_pvc pvc p s n i) e = ground arith
  build-some bk inst database node (on_s3 s3 p s b c i) e = ground arith

  module _ (bk : OdooBackup) (read : r.backup ≡ got bk)
      (scheduled : (bk.spec.schedule == "") ≡ false)
      (valid : backup_validate_spec t.parse_quantity bk ≡ none) where
    database-IsSafe :
        (inst : OdooInstance)
        → r.instance_reply ≡ got inst
        → IsSafe k t r (database_pass k t r bk inst)
    unfolding database_pass
    database-IsSafe inst i =
        let database = backup_database bk inst in
        let node = node_for k t r bk inst in
        if-IsSafe k t r (database == "") _ _
          (λ h. fail_pass-IsSafe k t r reason_invalid_spec no_database)
          (λ h. elim (Option-cases (build_backup_cron_job t bk inst database node)) [
            | inl e ↦ absurd (
                build-some bk inst database node
                  (backup_validate_spec-IsValid t.parse_quantity bk valid).destination e)
            | inr (wanted, e) ↦
                subst (λ o. IsSafe k t r (built_pass k t r o)) (sym e)
                  (owned-IsSafe wanted r.set_owner (λ o. record {
                    backup = bk;
                    inst = inst;
                    was_read = read;
                    scheduled = scheduled;
                    valid = valid;
                    instance_read = i;
                    database = h;
                    built = e;
                    outdated = o;
                  }))
          ])

    instance-IsSafe :
        (reply : Reply OdooInstance)
        → r.instance_reply ≡ reply
        → IsSafe k t r (instance_pass k t r bk reply)
    unfolding instance_pass
    instance-IsSafe (got inst) i = database-IsSafe inst i
    instance-IsSafe (refused e) i =
        if-IsSafe k t r (is_not_found e) _ _
          (λ h. set_pending-IsSafe k t r reason_instance_not_found "waiting for OdooInstance")
          (λ h. stop-IsSafe k t r 0 (some (api e)))

  spec-IsSafe :
      (bk : OdooBackup) (e : Option Error)
      → r.backup ≡ got bk
      → (bk.spec.schedule == "") ≡ false
      → backup_validate_spec t.parse_quantity bk ≡ e
      → IsSafe k t r (spec_pass k t r bk e)
  unfolding spec_pass
  spec-IsSafe bk (some e) read s valid = fail_pass-IsSafe k t r reason_invalid_spec (error_text e)
  spec-IsSafe bk none read s valid = instance-IsSafe bk read s valid r.instance_reply refl

  pub scheduled-IsSafe :
      (bk : OdooBackup)
      → r.backup ≡ got bk
      → (bk.spec.schedule == "") ≡ false
      → IsSafe k t r (reconcile_scheduled k t r bk)
  unfolding reconcile_scheduled
  scheduled-IsSafe bk read s = spec-IsSafe bk (backup_validate_spec t.parse_quantity bk) read s refl
