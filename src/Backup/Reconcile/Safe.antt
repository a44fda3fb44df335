-- ===== src/Backup/Reconcile/Safe.antt =====
-- Every pass over an OdooBackup is safe.
use odoo_k8_operator.Base.{not, ◌==◌, ◌≡◌, refl, arith}
use odoo_k8_operator.Kube.{Reply, got, refused}
use odoo_k8_operator.Kube.Retry.{ignore_not_found}
use odoo_k8_operator.Machinery.{Machinery}
use odoo_k8_operator.Api.{OdooBackup}
use odoo_k8_operator.Backup.Settings.{BackupTools}
use odoo_k8_operator.Backup.Pass.{BackupReads}
use odoo_k8_operator.Backup.OneShot.Safe.{one_shot-IsSafe}
use odoo_k8_operator.Backup.Schedule.Safe.{scheduled-IsSafe}
use odoo_k8_operator.Backup.Passes.{IsSafe, stop-IsSafe, if-IsSafe}
use odoo_k8_operator.Backup.Reconcile.{reconcile_got, backup_reconcile}

module _ (k : Machinery) (t : BackupTools) (r : BackupReads) where
  got-IsSafe :
      (reply : Reply OdooBackup) → r.backup ≡ reply → IsSafe k t r (reconcile_got k t r reply)
  unfolding reconcile_got
  got-IsSafe (refused e) read = stop-IsSafe k t r 0 (ignore_not_found e)
  got-IsSafe (got bk) read =
      if-IsSafe k t r (not (bk.spec.schedule == "")) _ _
        (λ h. scheduled-IsSafe k t r bk read (ground arith))
        (λ h. one_shot-IsSafe k t r bk read (ground arith))

  -- Whatever answers a pass over an OdooBackup gets: it creates a Job only for the one-shot backup
  -- that it read, where that has not finished, its spec is valid, its instance is there, the queue
  -- lets it start and a database is named, and the Job is the one built from these; it writes a
  -- CronJob only for the scheduled backup that it read, under the like conditions, and only where the
  -- one that it read is missing or has another hash annotation or other labels, where the hash is of
  -- the Job's spec, so that another schedule or suspension alone is no reason to write it; it stores
  -- the phase Succeeded only where the Job that it read succeeded; a status that it stores replaces an
  -- object that was not a finished one-shot backup, by one with the same metadata and spec, and never
  -- takes Running back to Pending; and it never follows a nil destination.
  pub backup_reconcile-IsSafe : IsSafe k t r (backup_reconcile k t r)
  unfolding backup_reconcile
  backup_reconcile-IsSafe = got-IsSafe r.backup refl
