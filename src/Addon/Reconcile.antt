-- ===== src/Addon/Reconcile.antt =====
-- Reconcile of internal/controller/odooaddon_controller.go.
pub mod Runs
use odoo_k8_operator.Base.{Bool, true, false, not, if◌then◌else◌, Option, none, some}
use odoo_k8_operator.Kube.{Reply, got, refused}
use odoo_k8_operator.Kube.Retry.{is_not_found}
use odoo_k8_operator.Errors.{Error, api}
use odoo_k8_operator.Machinery.{Machinery}
use odoo_k8_operator.Api.{OdooAddon}
use odoo_k8_operator.Addon.Pass.{SyncTools, SyncReads, SyncPass}
use odoo_k8_operator.Addon.Sync.{reconcile_odoo_addon}
use odoo_k8_operator.Addon.Deletion.{DeletionReads, DeletionPass, handle_finalizer}

-- The answers that a pass gets.
pub record AddonReads : Type 0 where
  pub addon : Reply OdooAddon
  -- The addon has a deletion timestamp; `deletion` tells whether it has the finalizer.
  pub deleting : Bool
  -- The addon that the Update with the finalizer returns
  pub update_finalizer : Reply OdooAddon
  pub sync : SyncReads
  pub deletion : DeletionReads

-- What a pass did.
pub record AddonPass : Type 0 where
  pub finalizer_added : Bool
  -- reconcileOdooAddon ran
  pub synced : Option SyncPass
  -- handleFinalizer ran
  pub left : Option DeletionPass
  -- The error of Reconcile's own calls
  pub error : Option Error

unfoldable pub only_error : Option Error → AddonPass
only_error e = record { finalizer_added = false; synced = none; left = none; error = e }

unfoldable pub leave_with : DeletionPass → AddonPass
unfolding only_error
leave_with p = record (only_error none) { left = some p }

unfoldable pub sync_after : Bool → SyncPass → AddonPass
unfolding only_error
sync_after added p = record (only_error none) { finalizer_added = added; synced = some p }

module _ (k : Machinery) (tools : SyncTools) (r : AddonReads) where
  unfoldable pub with_finalizer : Reply OdooAddon → AddonPass
  unfolding only_error sync_after reconcile_odoo_addon
  with_finalizer (refused e) = only_error (some (api e))
  with_finalizer (got addon) = sync_after true (reconcile_odoo_addon k tools r.sync addon)

  unfoldable pub addon_read : Reply OdooAddon → AddonPass
  unfolding only_error leave_with sync_after with_finalizer handle_finalizer reconcile_odoo_addon
  addon_read (refused e) = only_error (if is_not_found e then none else some (api e))
  addon_read (got addon) =
      if r.deleting
      then leave_with (handle_finalizer tools.controlled r.deletion addon)
      else if not r.deletion.has_finalizer
      then with_finalizer r.update_finalizer
      else sync_after false (reconcile_odoo_addon k tools r.sync addon)

  -- Reconcile
  unfoldable pub addon_reconcile : AddonPass
  unfolding addon_read
  addon_reconcile = addon_read r.addon
