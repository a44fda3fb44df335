-- ===== src/Backup/Schedule/Match.antt =====
-- When a stored CronJob is taken for the wanted one.
use odoo_k8_operator.Base.{true, false, ◌≡◌, refl, arith, eq_iff}
use odoo_k8_operator.Kube.Batch.{Labels, NewCronJob, label_of}
use odoo_k8_operator.Backup.Settings.{BackupTools, backup_hash_annotation}
use odoo_k8_operator.Backup.Pass.{CronJob}
use odoo_k8_operator.Backup.Schedule.{fresh, replaced, is_up_to_date}

-- It has the hash annotation of the wanted one, and DeepEqual finds no other labels. The hash is that
-- of the Job spec that the CronJob was built with, so the schedule and the suspension may differ.
pub record Matches (t : BackupTools) (cur : CronJob) (wanted : NewCronJob) : Type 0 where
  pub same_hash :
      label_of cur.annotations backup_hash_annotation
      ≡ label_of wanted.annotations backup_hash_annotation
  pub same_labels : t.labels_equal cur.labels wanted.labels ≡ true

module _ (t : BackupTools) (wanted : NewCronJob) where
  pub up_to_date-Matches :
      (cur : CronJob) → is_up_to_date t cur wanted ≡ true → Matches t cur wanted
  unfolding is_up_to_date
  up_to_date-Matches cur h =
      let iff =
        eq_iff (label_of cur.annotations backup_hash_annotation)
          (label_of wanted.annotations backup_hash_annotation) in
      record { same_hash = iff.0 (ground arith); same_labels = ground arith }

  pub outdated-not-Matches :
      (cur : CronJob) → is_up_to_date t cur wanted ≡ false → ¬ (Matches t cur wanted)
  unfolding is_up_to_date
  outdated-not-Matches cur h m =
      let iff =
        eq_iff (label_of cur.annotations backup_hash_annotation)
          (label_of wanted.annotations backup_hash_annotation) in
      ground (arith, iff.1 m.same_hash, m.same_labels)

  module _ (same : (l : Labels) → t.labels_equal l l ≡ true) where
    pub fresh-Matches : Matches t (fresh wanted) wanted
    unfolding fresh
    fresh-Matches = record { same_hash = refl; same_labels = same wanted.labels }

    pub replaced-Matches : (cur : CronJob) → Matches t (replaced cur wanted) wanted
    unfolding replaced
    replaced-Matches cur = record { same_hash = refl; same_labels = same wanted.labels }
