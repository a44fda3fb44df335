-- ===== src/Addon/Sync/Passes.antt =====
-- Every pass over an OdooAddon does what `Fits` allows.
use odoo_k8_operator.Base.{
  String, Bool, true, false, ◌==◌, if◌then◌else◌, List, Option, none, some, ◌≡◌, refl, ◌∙◌, ap, inl,
  inr, arith, eq_iff,
}
use odoo_k8_operator.Kube.{Reply, got, refused, Condition}
use odoo_k8_operator.Kube.Batch.{Job}
use odoo_k8_operator.Kube.Retry.{is_not_found}
use odoo_k8_operator.PodLogs.{read_job_logs}
use odoo_k8_operator.Addon.Output.{output, read_sync_output}
use odoo_k8_operator.Errors.{api}
use odoo_k8_operator.Machinery.{Machinery}
use odoo_k8_operator.Api.{OdooAddon}
use odoo_k8_operator.Api.Instance.{OdooInstance}
use odoo_k8_operator.Names.{addons_pvc_name}
use odoo_k8_operator.Api.Reasons.{
  reason_invalid_spec, reason_instance_not_found, reason_volume_not_bound, reason_job_conflict,
}
use odoo_k8_operator.Addon.State.{
  SyncDecision, SyncAction, invalid_spec, job_conflict, delete_stale_job, record_success,
  record_failure, await_job, cooldown, skip_resync, create_job, observe_sync_job,
}
use odoo_k8_operator.Addon.State.Laws.{IsJudged, Justified, decide-Justified}
use odoo_k8_operator.Addon.Spec.{Resolved, resolve_sync_spec}
use odoo_k8_operator.Addon.Status.{synced_status}
use odoo_k8_operator.Addon.Sync.Allowed.{Evidence, Fits}
use odoo_k8_operator.Addon.Sync.Laws.{
  end-Fits, mark_failed-Fits, pending-Fits, set_phase-Fits, delete_then-Fits, record_failure-Fits,
  record_success-Fits, resolved-valid, create_then-Fits,
}
use odoo_k8_operator.Addon.Pass.{
  not_bound_message, no_instance_message, SyncTools, SyncReads, SyncPass,
}
use odoo_k8_operator.Addon.Sync.{
  mark_failed, delete_then, sync_input, act, sync_with, sync_addon, volume_then, instance_then,
  reconcile_odoo_addon,
}

module _ (k : Machinery) (tools : SyncTools) (r : SyncReads) (addon : OdooAddon) where
  -- What the facts say of the Job that the pass read.
  missing :
      (spec : Resolved) (job : Option Job)
      → (sync_input k tools r addon spec job).job.exists ≡ false
      → job ≡ none
  unfolding sync_input observe_sync_job
  missing spec none e = refl
  missing spec (some j) e = ground arith

  fail : (reason msg : String) → Fits tools r addon (mark_failed k tools r addon reason msg)
  fail reason msg = mark_failed-Fits k tools r addon reason msg

  if-Fits :
      (b : Bool) (p q : SyncPass)
      → ((b ≡ true) → Fits tools r addon p)
      → Fits tools r addon q
      → Fits tools r addon (if b then p else q)
  if-Fits true p q f g = f refl
  if-Fits false p q f g = g

  delete_owned-Fits :
      (spec : Resolved) (job : Option Job) (p : SyncPass)
      → r.job ≡ got job
      → ((sync_input k tools r addon spec job).job.exists ≡ true)
        × ((sync_input k tools r addon spec job).job.controlled_by_addon ≡ true)
      → Fits tools r addon p
      → Fits tools r addon (delete_then k tools r job p)
  unfolding sync_input observe_sync_job delete_then
  delete_owned-Fits spec none p read o f = f
  delete_owned-Fits spec (some j) p read (x, c) f = delete_then-Fits k tools r addon j read c p f

  success-Evidence :
      (spec : Resolved) (j : Job)
      → resolve_sync_spec tools.parse_url addon ≡ spec
      → r.job ≡ got (some j)
      → IsJudged (sync_input k tools r addon spec (some j))
      → (sync_input k tools r addon spec (some j)).job.succeeded ≡ true
      → (commit : String) (modules : List String)
      → read_sync_output j (read_job_logs r.logs j) ≡ output commit modules
      → (cs : List Condition)
      → Evidence tools r addon
          (record (synced_status r.now commit modules addon.status) { conditions = cs })
  unfolding sync_input observe_sync_job synced_status
  success-Evidence spec j same read judged done commit modules log cs =
      let (s, e) = resolved-valid k tools r addon spec (some j) same judged.valid in
      record {
        job = j;
        spec = s;
        was_read = read;
        controlled = judged.controlled;
        succeeded = done;
        valid = same ∙ e;
        same_spec = judged.same_spec ∙ ground (arith, e);
        log = log;
      }

  act-Fits :
      (inst : OdooInstance) (spec : Resolved) (job : Option Job) (d : SyncDecision) (a : SyncAction)
      → resolve_sync_spec tools.parse_url addon ≡ spec
      → r.job ≡ got job
      → (r.instance_reply ≡ got inst) × (r.claim ≡ got "Bound")
      → Justified (sync_input k tools r addon spec job) d
      → d.action ≡ a
      → Fits tools r addon (act k tools r addon inst (addons_pvc_name inst.meta.name) spec job d a)
  unfolding act sync_input
  act-Fits inst spec job d invalid_spec same read volume ok e =
      if-Fits d.delete_job _ _
        (λ h. delete_owned-Fits spec job _ read (ok.deletes h) (fail reason_invalid_spec _))
        (fail reason_invalid_spec _)
  act-Fits inst spec job d job_conflict same read volume ok e =
      if-Fits d.delete_job _ _
        (λ h. delete_owned-Fits spec job _ read (ok.deletes h) (fail reason_job_conflict _))
        (fail reason_job_conflict _)
  act-Fits inst spec job d delete_stale_job same read volume ok e =
      delete_owned-Fits spec job _ read (ok.deletes (ok.stale e))
        (end-Fits k tools r addon d.requeue none)
  act-Fits inst spec none d record_success same read volume ok e = end-Fits k tools r addon 0 none
  act-Fits inst spec (some j) d record_success same read volume ok e =
      let (judged, done) = ok.success e in
      record_success-Fits k tools r addon j read judged.controlled
        (success-Evidence spec j same read judged done) _ refl
  act-Fits inst spec none d record_failure same read volume ok e = end-Fits k tools r addon 0 none
  act-Fits inst spec (some j) d record_failure same read volume ok e =
      let (x, c) = ok.deletes (ok.recorded e) in record_failure-Fits k tools r addon j read c
  act-Fits inst spec job d await_job same read volume ok e =
      set_phase-Fits k tools r addon d.phase d.requeue (ok.waits (inl e))
  act-Fits inst spec job d cooldown same read volume ok e =
      set_phase-Fits k tools r addon d.phase d.requeue (ok.waits (inr (inl e)))
  act-Fits inst spec job d skip_resync same read volume ok e =
      set_phase-Fits k tools r addon d.phase d.requeue (ok.waits (inr (inr (inl e))))
  act-Fits inst spec job d create_job same read volume ok e =
      create_then-Fits k tools r addon inst spec _ same
        (read ∙ ap got (missing spec job (ok.create e))) volume
        (set_phase-Fits k tools r addon d.phase d.requeue (ok.waits (inr (inr (inr e)))))

  sync_with-Fits :
      (inst : OdooInstance) (spec : Resolved) (reply : Reply (Option Job))
      → resolve_sync_spec tools.parse_url addon ≡ spec
      → r.job ≡ reply
      → (r.instance_reply ≡ got inst) × (r.claim ≡ got "Bound")
      → Fits tools r addon
          (sync_with k tools r addon inst (addons_pvc_name inst.meta.name) spec reply)
  unfolding sync_with
  sync_with-Fits inst spec (refused e) same read volume = end-Fits k tools r addon 0 (some (api e))
  sync_with-Fits inst spec (got job) same read volume =
      act-Fits inst spec job _ _ same read volume
        (decide-Justified (sync_input k tools r addon spec job)) refl

  volume_then-Fits :
      (inst : OdooInstance) (reply : Reply String)
      → r.instance_reply ≡ got inst
      → r.claim ≡ reply
      → Fits tools r addon (volume_then k tools r addon inst reply)
  unfolding volume_then sync_addon
  volume_then-Fits inst (got phase) there claim =
      if-Fits (phase == "Bound") _ _
        (λ h.
          sync_with-Fits inst _ r.job refl refl
            (there, claim ∙ ap got (ground (arith, eq_iff phase "Bound"))))
        (pending-Fits k tools r addon reason_volume_not_bound (not_bound_message inst))
  volume_then-Fits inst (refused e) there claim =
      if-Fits (is_not_found e) _ _
        (λ h. pending-Fits k tools r addon reason_volume_not_bound (not_bound_message inst))
        (end-Fits k tools r addon 0 (some (api e)))

  instance_then-Fits :
      (reply : Reply OdooInstance)
      → r.instance_reply ≡ reply
      → Fits tools r addon (instance_then k tools r addon reply)
  unfolding instance_then
  instance_then-Fits (got inst) there = volume_then-Fits inst r.claim there refl
  instance_then-Fits (refused e) there =
      if-Fits (is_not_found e) _ _
        (λ h. pending-Fits k tools r addon reason_instance_not_found (no_instance_message addon))
        (end-Fits k tools r addon 0 (some (api e)))

  -- Whatever answers a pass over an OdooAddon gets: a status that it stores is Ready exactly if it is
  -- Synced, where the old one was; it is newly Synced, or at another commit, only with the commit and
  -- the modules of a succeeded Job that the addon controls and that was built from its present valid
  -- spec; a Job that it deletes is the one that it read, which the addon controls; and it creates a
  -- Job only if it read that there is none, that the instance is there and that its claim is Bound,
  -- and then the Job of the present valid spec, with that claim and, where one is seen, the node of a
  -- running pod.
  pub reconcile_odoo_addon-Fits : Fits tools r addon (reconcile_odoo_addon k tools r addon)
  unfolding reconcile_odoo_addon
  reconcile_odoo_addon-Fits =
      if-Fits _ _ _
        (λ h.
          mark_failed-Fits k tools r addon reason_invalid_spec
            "cross-namespace instanceRef is not supported")
        (if-Fits _ _ _
          (λ h.
            pending-Fits k tools r addon reason_instance_not_found "spec.instanceRef.name is empty")
          (instance_then-Fits r.instance_reply refl))
