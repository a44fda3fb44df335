-- ===== src/Backup/Job/Reschedule.antt =====
-- What a change of the schedule or of the suspension alone comes to: buildBackupCronJob of
-- internal/controller/odoobackup_job.go and backupApplyCronJob of odoobackup_controller.go.
use odoo_k8_operator.Base.{
  String, Bool, true, Option, none, some, ◌≡◌, refl, sym, ap, subst, ◌∙◌, arith, eq_iff,
}
use odoo_k8_operator.Kube.{got}
use odoo_k8_operator.Kube.Batch.{Labels, JobSpec, NewCronJob, label_of}
use odoo_k8_operator.Machinery.{Machinery}
use odoo_k8_operator.Api.{OdooBackup}
use odoo_k8_operator.Api.Instance.{OdooInstance}
use odoo_k8_operator.Backup.Settings.{
  BackupTools, backup_hash_annotation, backup_include_filestore, backup_scratch_quantity,
  backup_retention,
}
use odoo_k8_operator.Backup.Job.{
  job_spec_of, parts, pvc_parts, s3_parts, pod_of, build_backup_pod_spec, build_backup_job_spec,
  cron_job_of, build_backup_cron_job,
}
use odoo_k8_operator.Backup.Pass.{CronJob, BackupReads}
use odoo_k8_operator.Backup.Schedule.{applied, is_up_to_date, backup_apply_cron_job}

-- A backup after its schedule and its suspension were edited.
abbrev pub rescheduled : OdooBackup → String → Bool → OdooBackup
rescheduled bk schedule suspend = record bk {
  spec = record bk.spec { schedule = schedule; suspend = suspend };
}

cron_of : BackupTools → OdooBackup → Option JobSpec → Option NewCronJob
unfolding cron_job_of
cron_of t bk o = elim o [ none ↦ none | some spec ↦ some (cron_job_of t bk spec) ]

-- The two CronJobs are the same for the test.
cron_of-same :
    (t : BackupTools) (bk : OdooBackup) (schedule : String) (suspend : Bool) (o : Option JobSpec)
    (d d' : NewCronJob)
    → cron_of t bk o ≡ some d
    → cron_of t (rescheduled bk schedule suspend) o ≡ some d'
    → (d'.annotations ≡ d.annotations) × (d'.labels ≡ d.labels)
unfolding cron_of cron_job_of
cron_of-same t bk schedule suspend none d d' h h' = absurd (ground arith)
cron_of-same t bk schedule suspend (some spec) d d' h h' = (ground arith, ground arith)

-- Where the server still holds the hash and the labels of the CronJob of a backup, a pass over the
-- backup with another schedule or suspension, and nothing else changed, writes no CronJob.
rescheduled-kept :
    (k : Machinery) (t : BackupTools) (r : BackupReads)
    → ((l : Labels) → t.labels_equal l l ≡ true)
    → (bk : OdooBackup) (schedule : String) (suspend : Bool) (inst : OdooInstance)
      (database node : String) (d d' : NewCronJob)
    → build_backup_cron_job t bk inst database node ≡ some d
    → build_backup_cron_job t (rescheduled bk schedule suspend) inst database node ≡ some d'
    → (cur : CronJob) → cur.annotations ≡ d.annotations
    → cur.labels ≡ d.labels
    → backup_apply_cron_job k t r d' (got cur) ≡ applied cur none
unfolding build_backup_cron_job cron_of build_backup_job_spec job_spec_of build_backup_pod_spec
    parts pvc_parts s3_parts pod_of backup_apply_cron_job is_up_to_date backup_include_filestore
    backup_scratch_quantity backup_retention
rescheduled-kept k t r same bk schedule suspend inst database node d d' h h' cur a l =
    let iff =
      eq_iff (label_of cur.annotations backup_hash_annotation)
        (label_of d'.annotations backup_hash_annotation) in
    let (sa, sl) =
      cron_of-same t bk schedule suspend (build_backup_job_spec t bk inst database node) d d' h
        h' in
    let hash = ap (λ as'. label_of as' backup_hash_annotation) (a ∙ sym sa) in
    let labels : t.labels_equal cur.labels d'.labels ≡ true =
      subst (λ m. t.labels_equal m d'.labels ≡ true) (sym (l ∙ sym sl)) (same d'.labels) in
    rw (iff.1 hash) (rw labels refl)
