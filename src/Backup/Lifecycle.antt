-- ===== src/Backup/Lifecycle.antt =====
-- The stored OdooBackup under any number of passes, in any order and from any stale views, and under
-- its users' edits.
use odoo_k8_operator.Base.{
  true, ◌==◌, List, Memᴰ, none, some, ◌≡◌, ◌⊎◌, inl, inr, refl, sym, ◌∙◌, ap, subst, arith,
}
use odoo_k8_operator.Kube.{ObjectMeta, got}
use odoo_k8_operator.Kube.Retry.{Exchange}
use odoo_k8_operator.Phases.{backup_phase_succeeded, backup_phase_failed}
use odoo_k8_operator.Machinery.{Machinery}
use odoo_k8_operator.Api.{OdooBackup, OdooBackupSpec}
use odoo_k8_operator.Backup.Settings.{BackupTools}
use odoo_k8_operator.Backup.Pass.{BackupReads}
use odoo_k8_operator.Backup.Status.{IsLegal, is_finished}
use odoo_k8_operator.Backup.Reconcile.{backup_reconcile}
use odoo_k8_operator.Backup.Reconcile.Safe.{backup_reconcile-IsSafe}

-- The API server takes an Update only of the version that it holds.
abbrev pub IsOptimistic : OdooBackup → List (Exchange OdooBackup) → Type 0
IsOptimistic stored xs =
    (x : Exchange OdooBackup) → Memᴰ x xs → x.update ≡ none → x.read ≡ got stored

-- One change of the stored object.
pub data Step (k : Machinery) (t : BackupTools) (s u : OdooBackup) : Type 0 where
  status_write :
      (r : BackupReads) (cur : OdooBackup)
      → IsOptimistic s r.writes
      → (backup_reconcile k t r).written ≡ some (cur, u)
      → Step k t s u
  -- A user's edit that sets no schedule; it leaves the status, a subresource, alone.
  edit :
      (meta : ObjectMeta) (spec : OdooBackupSpec)
      → (spec.schedule == "") ≡ true
      → u ≡ record s { meta = meta; spec = spec }
      → Step k t s u

pub data Reach (k : Machinery) (t : BackupTools) (s : OdooBackup) : OdooBackup → Type 0 where
  here : Reach k t s s
  next : {u v : OdooBackup} → Reach k t s u → Step k t u v → Reach k t s v

module _ (k : Machinery) (t : BackupTools) where
  status_write-IsLegal :
      (s u : OdooBackup) (r : BackupReads) (cur : OdooBackup)
      → IsOptimistic s r.writes
      → (backup_reconcile k t r).written ≡ some (cur, u)
      → IsLegal s u
  status_write-IsLegal s u r cur o h =
      let w = (backup_reconcile-IsSafe k t r).stores cur u h in
      let held : got cur ≡ got s = sym w.was_read ∙ o w.exchange w.of_pass w.accepted in
      let same : cur ≡ s = ground arith in subst (λ x. IsLegal x u) same w.legal

  -- What a finished one-shot backup keeps.
  record Kept (s u : OdooBackup) : Type 0 where
    finished : is_finished u ≡ true
    status : u.status ≡ s.status

  edit-is_finished :
      (u : OdooBackup) (meta : ObjectMeta) (spec : OdooBackupSpec)
      → (spec.schedule == "") ≡ true
      → is_finished u ≡ true
      → is_finished (record u { meta = meta; spec = spec }) ≡ true
  unfolding is_finished
  edit-is_finished u meta spec e f = ground arith

  Kept-Step : (s u v : OdooBackup) → Kept s u → Step k t u v → Kept s v
  Kept-Step s u v c (status_write r cur o h) =
      let l = status_write-IsLegal u v r cur o h in
      absurd (ground (arith, l.not_finished, c.finished))
  Kept-Step s u v c (edit meta spec e h) = record {
    finished = ap is_finished h ∙ edit-is_finished u meta spec e c.finished;
    status = ap (λ (x : OdooBackup). x.status) h ∙ c.status;
  }

  Kept-Reach : (s u : OdooBackup) → Reach k t s u → is_finished s ≡ true → Kept s u
  Kept-Reach s u here f = record { finished = f; status = refl }
  Kept-Reach s u (next {u = v} p q) f = Kept-Step s v u (Kept-Reach s v p f) q

  ended-is_finished :
      (s : OdooBackup)
      → (s.spec.schedule == "") ≡ true
      → (s.status.phase ≡ backup_phase_succeeded) ⊎ (s.status.phase ≡ backup_phase_failed)
      → is_finished s ≡ true
  unfolding is_finished
  ended-is_finished s o (inl e) = rw o (rw e refl)
  ended-is_finished s o (inr e) = rw o (rw e refl)

  -- Once a one-shot backup has Succeeded or Failed, its status stays as it is for ever, whatever
  -- passes, from whatever stale views, and edits of its users that set no schedule follow. The API
  -- server is taken to accept an Update only of the version that it holds.
  pub finished-Reach :
      (s u : OdooBackup)
      → Reach k t s u
      → (s.spec.schedule == "") ≡ true
      → (s.status.phase ≡ backup_phase_succeeded) ⊎ (s.status.phase ≡ backup_phase_failed)
      → u.status ≡ s.status
  finished-Reach s u p o f = (Kept-Reach s u p (ended-is_finished s o f)).status
