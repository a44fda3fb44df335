-- ===== src/Addon/Reconcile/Runs.antt =====
-- What a pass over an OdooAddon runs: Reconcile of internal/controller/odooaddon_controller.go.
use odoo_k8_operator.Base.{
  Bool, true, false, not, if◌then◌else◌, none, some, ◌≡◌, refl, sym, subst, arith,
}
use odoo_k8_operator.Kube.{ApiError, Reply, got, refused}
use odoo_k8_operator.Kube.Retry.{is_not_found}
use odoo_k8_operator.Errors.{api}
use odoo_k8_operator.Machinery.{Machinery}
use odoo_k8_operator.Api.{OdooAddon}
use odoo_k8_operator.Addon.Pass.{SyncTools, SyncPass}
use odoo_k8_operator.Addon.Sync.{reconcile_odoo_addon}
use odoo_k8_operator.Addon.Sync.Allowed.{Fits}
use odoo_k8_operator.Addon.Sync.Passes.{reconcile_odoo_addon-Fits}
use odoo_k8_operator.Addon.Deletion.{DeletionPass, wait_seconds, handle_finalizer}
use odoo_k8_operator.Addon.Deletion.Ends.{ends, may_release, handle_finalizer-ends}
use odoo_k8_operator.Addon.Reconcile.{
  AddonReads, AddonPass, only_error, leave_with, sync_after, with_finalizer, addon_read,
  addon_reconcile,
}

module _ (tools : SyncTools) (r : AddonReads) where
  -- What a pass did, and why.
  pub data Ran : AddonPass → Type 0 where
    gone : (e : ApiError) → r.addon ≡ refused e → is_not_found e ≡ true → Ran (only_error none)
    unread :
        (e : ApiError)
        → r.addon ≡ refused e
        → is_not_found e ≡ false
        → Ran (only_error (some (api e)))
    -- The addon is being deleted and has the finalizer.
    leaves :
        (addon : OdooAddon) (p : DeletionPass)
        → r.addon ≡ got addon
        → r.deleting ≡ true
        → r.deletion.has_finalizer ≡ true
        → ends tools.controlled r.deletion addon (may_release tools.controlled r.deletion addon) p
          ≡ true
        → Ran (leave_with p)
    -- It does not have the finalizer any more.
    left : r.deleting ≡ true → r.deletion.has_finalizer ≡ false → Ran (leave_with (wait_seconds 0))
    -- The finalizer could not be stored.
    unmarked :
        (e : ApiError)
        → r.deleting ≡ false
        → r.deletion.has_finalizer ≡ false
        → r.update_finalizer ≡ refused e
        → Ran (only_error (some (api e)))
    -- The finalizer was stored by this pass.
    first :
        (addon : OdooAddon) (p : SyncPass)
        → r.deleting ≡ false
        → r.deletion.has_finalizer ≡ false
        → r.update_finalizer ≡ got addon
        → Fits tools r.sync addon p
        → Ran (sync_after true p)
    later :
        (addon : OdooAddon) (p : SyncPass)
        → r.addon ≡ got addon
        → r.deleting ≡ false
        → r.deletion.has_finalizer ≡ true
        → Fits tools r.sync addon p
        → Ran (sync_after false p)

  module _ (k : Machinery) where
    update-Ran :
        (reply : Reply OdooAddon)
        → r.deleting ≡ false
        → r.deletion.has_finalizer ≡ false
        → r.update_finalizer ≡ reply
        → Ran (with_finalizer k tools r reply)
    unfolding with_finalizer
    update-Ran (refused e) d f same = unmarked e d f same
    update-Ran (got addon) d f same =
        first addon _ d f same (reconcile_odoo_addon-Fits k tools r.sync addon)

    live-Ran :
        (addon : OdooAddon) (has : Bool)
        → r.addon ≡ got addon
        → r.deleting ≡ false
        → r.deletion.has_finalizer ≡ has
        → Ran (
            if not has
            then with_finalizer k tools r r.update_finalizer
            else sync_after false (reconcile_odoo_addon k tools r.sync addon))
    live-Ran addon true was d f =
        later addon _ was d f (reconcile_odoo_addon-Fits k tools r.sync addon)
    live-Ran addon false was d f = update-Ran r.update_finalizer d f refl

    no_finalizer :
        (addon : OdooAddon)
        → r.deletion.has_finalizer ≡ false
        → leave_with (handle_finalizer tools.controlled r.deletion addon)
          ≡ leave_with (wait_seconds 0)
    unfolding handle_finalizer
    no_finalizer addon f = ground arith

    leaving-Ran :
        (addon : OdooAddon) (has : Bool)
        → r.addon ≡ got addon
        → r.deleting ≡ true
        → r.deletion.has_finalizer ≡ has
        → Ran (leave_with (handle_finalizer tools.controlled r.deletion addon))
    leaving-Ran addon true was d f =
        leaves addon _ was d f (handle_finalizer-ends tools.controlled r.deletion addon f)
    leaving-Ran addon false was d f = subst Ran (sym (no_finalizer addon f)) (left d f)

    got-Ran :
        (addon : OdooAddon) (deleting : Bool)
        → r.addon ≡ got addon
        → r.deleting ≡ deleting
        → Ran (
            if deleting
            then leave_with (handle_finalizer tools.controlled r.deletion addon)
            else if not r.deletion.has_finalizer
            then with_finalizer k tools r r.update_finalizer
            else sync_after false (reconcile_odoo_addon k tools r.sync addon))
    got-Ran addon true was d = leaving-Ran addon r.deletion.has_finalizer was d refl
    got-Ran addon false was d = live-Ran addon r.deletion.has_finalizer was d refl

    refused-Ran :
        (e : ApiError) (missing : Bool)
        → r.addon ≡ refused e
        → is_not_found e ≡ missing
        → Ran (only_error (if missing then none else some (api e)))
    refused-Ran e true was m = gone e was m
    refused-Ran e false was m = unread e was m

    read-Ran : (reply : Reply OdooAddon) → r.addon ≡ reply → Ran (addon_read k tools r reply)
    unfolding addon_read
    read-Ran (refused e) was = refused-Ran e (is_not_found e) was refl
    read-Ran (got addon) was = got-Ran addon r.deleting was refl

    -- A pass does nothing for an addon that is not there, and returns the error of any other failed
    -- read. Where the addon is being deleted it does not sync: it ends as a deletion may, or does
    -- nothing once the finalizer is gone. Otherwise it syncs only once the finalizer is stored, by this
    -- pass or an earlier one, with the addon that the server returned, and then it does what a sync may;
    -- if the finalizer cannot be stored it returns that error and does nothing else.
    pub addon_reconcile-Ran : Ran (addon_reconcile k tools r)
    unfolding addon_reconcile
    addon_reconcile-Ran = read-Ran r.addon refl
