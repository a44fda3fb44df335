-- ===== src/Backup/Reconcile.antt =====
-- Reconcile of internal/controller/odoobackup_controller.go.
pub mod Safe
use odoo_k8_operator.Base.{String, not, ◌==◌, if◌then◌else◌}
use odoo_k8_operator.Kube.{Reply, got, refused}
use odoo_k8_operator.Kube.Retry.{ignore_not_found}
use odoo_k8_operator.Machinery.{Machinery}
use odoo_k8_operator.Api.{OdooBackup}
use odoo_k8_operator.Backup.Settings.{BackupTools}
use odoo_k8_operator.Backup.Pass.{BackupReads, BackupPass, stop}
use odoo_k8_operator.Backup.OneShot.{reconcile_one_shot}
use odoo_k8_operator.Backup.Schedule.{reconcile_scheduled}

module _ (k : Machinery) (t : BackupTools) (r : BackupReads) where
  reconcile_got : Reply OdooBackup → BackupPass
  reconcile_got (refused e) = stop 0 (ignore_not_found e)
  reconcile_got (got bk) =
      if not (bk.spec.schedule == "")
      then reconcile_scheduled k t r bk
      else reconcile_one_shot k t r bk

  -- Reconcile
  unfoldable pub backup_reconcile : BackupPass
  unfolding reconcile_got
  backup_reconcile = reconcile_got r.backup
