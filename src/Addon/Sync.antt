-- ===== src/Addon/Sync.antt =====
-- reconcileOdooAddon, syncAddon, recordSyncSuccess and recordSyncFailure of internal/controller/
-- odooaddon_controller.go.
pub mod Allowed
pub mod Laws
pub mod Passes
use odoo_k8_operator.Base.{
  ℕ, String, Bool, true, false, ◌&&◌, ◌||◌, not, ◌⧺◌, ◌==◌, if◌then◌else◌, List, [], ◌∷◌, Option,
  none, some, quote,
}
use odoo_k8_operator.Kube.{ApiError, Reply, got, refused, Time, Pod}
use odoo_k8_operator.Kube.Batch.{Job, NewJob}
use odoo_k8_operator.Kube.Retry.{is_not_found, is_conflict, is_already_exists}
use odoo_k8_operator.PodLogs.{LogReads, read_job_logs}
use odoo_k8_operator.Backup.Logs.{backup_tail}
use odoo_k8_operator.Addon.Output.{SyncOutput, no_output, output, read_sync_output}
use odoo_k8_operator.Errors.{Result, ok, err, Error, text, api, wrap, error_text}
use odoo_k8_operator.Machinery.{Machinery}
use odoo_k8_operator.Api.{OdooAddon, OdooAddonStatus}
use odoo_k8_operator.Api.Instance.{OdooInstance}
use odoo_k8_operator.Api.Reasons.{
  reason_invalid_spec, reason_instance_not_found, reason_volume_not_bound, reason_job_conflict,
  reason_sync_failed,
}
use odoo_k8_operator.Conditions.Addon.{addon_failure_reason}
use odoo_k8_operator.JobStatus.{failed_condition, condition_text, trim_space, odoo_pod_node}
use odoo_k8_operator.Names.{addons_pvc_name}
use odoo_k8_operator.Events.{Recorded}
use odoo_k8_operator.Addon.State.{
  SyncInput, SyncDecision, SyncAction, invalid_spec, job_conflict, delete_stale_job, record_success,
  record_failure, await_job, cooldown, skip_resync, create_job, resync_interval, failure_backoff,
  decide_addon_sync, observe_sync_job,
}
use odoo_k8_operator.Addon.Job.{job_options, build_sync_job}
use odoo_k8_operator.Addon.Spec.{
  Resolved, refused_spec, resolved, UrlUser, resolve_sync_spec, can_skip_resync, sync_spec_hash,
}
use odoo_k8_operator.Addon.Status.{
  AddonMutate, StatusWrite, write_addon_status, failed_status, failed_sync_status, synced_status,
  pending_status, phase_status, phase_reason,
}
use odoo_k8_operator.Addon.Pass.{
  SyncTools, SyncReads, SyncPass, end, job_failure_reason, logs_text, with_log_tail, delete_error,
  not_bound_message, no_instance_message,
}

addon_pending_requeue : ℕ
addon_pending_requeue = 10

module _ (k : Machinery) (tools : SyncTools) (r : SyncReads) where
  -- A status write that ends the pass.
  write_end : OdooAddon → String → String → AddonMutate → ℕ → SyncPass
  unfolding write_addon_status
  write_end addon reason msg mutate requeue =
      let w = write_addon_status k r.recorder r.update addon reason msg mutate in
      elim w.error [
        | some e ↦ end 0 (some (api e))
        | none ↦ record (end requeue none) { written = w.written; events = w.events }
      ]

  -- markFailed
  unfoldable pub mark_failed : OdooAddon → String → String → SyncPass
  unfolding write_end failed_status
  mark_failed addon reason msg =
      write_end addon reason msg (failed_status r.now msg) failure_backoff

  -- pending
  unfoldable pub pending : OdooAddon → String → String → SyncPass
  unfolding write_end pending_status addon_pending_requeue
  pending addon reason msg = write_end addon reason msg pending_status addon_pending_requeue

  -- setPhase, then the requeue of the decision
  pub set_phase : OdooAddon → String → ℕ → SyncPass
  unfolding write_end phase_status phase_reason
  set_phase addon phase requeue =
      let (reason, msg) = phase_reason k phase addon in
      write_end addon reason msg (phase_status phase) requeue

  -- The delete that follows a status write; its error replaces the requeue.
  then_delete : Job → SyncPass → SyncPass
  unfolding delete_error
  then_delete job p = elim p.error [
    | some e ↦ p
    | none ↦ record p {
      deleted = some job;
      error = delete_error r.delete;
      requeue_after = elim (delete_error r.delete) [ none ↦ p.requeue_after | some e ↦ 0 ];
    }
  ]

  -- finishFailedSyncJob
  finish_failed_sync_job : OdooAddon → Job → String → String → SyncPass
  unfolding then_delete write_end failed_sync_status
  finish_failed_sync_job addon job reason msg =
      then_delete job (write_end addon reason msg (failed_sync_status r.now msg) failure_backoff)

  -- recordSyncSuccess
  unfoldable pub record_sync_success : OdooAddon → Job → SyncOutput → SyncPass
  unfolding finish_failed_sync_job then_delete write_end synced_status
  record_sync_success addon job (no_output e) =
      finish_failed_sync_job addon job reason_sync_failed (error_text e)
  record_sync_success addon job (output commit modules) =
      then_delete job (write_end addon "" "" (synced_status r.now commit modules) resync_interval)

  -- recordSyncFailure
  unfoldable pub record_sync_failure : OdooAddon → Job → SyncPass
  unfolding finish_failed_sync_job job_failure_reason read_job_logs logs_text with_log_tail
  record_sync_failure addon job =
      let msg = job_failure_reason job in
      let logs = read_job_logs r.logs job in
      finish_failed_sync_job addon job (addon_failure_reason (logs_text logs))
        (with_log_tail msg logs)

  -- A delete that comes before the rest of the pass.
  pub delete_then : Option Job → SyncPass → SyncPass
  unfolding delete_error
  delete_then none p = p
  delete_then (some job) p = elim (delete_error r.delete) [
    | some e ↦ record (end 0 (some e)) { deleted = some job }
    | none ↦ record p { deleted = some job }
  ]

  -- createSyncJob, then setPhase; a spec that was refused does not come here.
  pub create_then : OdooAddon → OdooInstance → String → Resolved → SyncPass → SyncPass
  unfolding job_options odoo_pod_node build_sync_job
  create_then addon inst pvc_name (refused_spec e) p = p
  create_then addon inst pvc_name (resolved s) p = elim r.set_owner [
    | some e ↦ end 0 (some e)
    | none ↦ elim r.create [
      | none ↦ record p {
        created = some (
            build_sync_job tools.digest addon s
              (job_options r.image inst pvc_name (odoo_pod_node r.pods)));
      }
      | some e ↦
          if is_already_exists e
          then p
          else end 0 (some (wrap "failed to create sync job: " (api e)))
    ]
  ]

  -- The facts of decideAddonSync
  pub sync_input : OdooAddon → Resolved → Option Job → SyncInput
  unfolding can_skip_resync observe_sync_job sync_spec_hash
  sync_input addon spec job = record {
    spec_err = elim spec [ refused_spec e ↦ error_text e | resolved s ↦ "" ];
    spec_hash = elim spec [ refused_spec e ↦ "" | resolved s ↦ sync_spec_hash tools.digest s ];
    job = observe_sync_job tools.controlled job addon;
    phase = addon.status.phase;
    last_sync_time = addon.status.last_sync_time;
    skip_resync = can_skip_resync addon;
    now = r.now;
  }

  act :
      OdooAddon
      → OdooInstance
      → String
      → Resolved
      → Option Job
      → SyncDecision
      → SyncAction
      → SyncPass
  unfolding mark_failed set_phase delete_then create_then record_sync_success record_sync_failure
      read_sync_output read_job_logs
  act addon inst pvc_name spec job d invalid_spec =
      let p = mark_failed addon reason_invalid_spec d.message in
      if d.delete_job then delete_then job p else p
  act addon inst pvc_name spec job d job_conflict =
      let p = mark_failed addon reason_job_conflict d.message in
      if d.delete_job then delete_then job p else p
  act addon inst pvc_name spec job d delete_stale_job = delete_then job (end d.requeue none)
  act addon inst pvc_name spec none d record_success = end 0 none
  act addon inst pvc_name spec (some job) d record_success =
      record_sync_success addon job (read_sync_output job (read_job_logs r.logs job))
  act addon inst pvc_name spec none d record_failure = end 0 none
  act addon inst pvc_name spec (some job) d record_failure = record_sync_failure addon job
  act addon inst pvc_name spec job d await_job = set_phase addon d.phase d.requeue
  act addon inst pvc_name spec job d cooldown = set_phase addon d.phase d.requeue
  act addon inst pvc_name spec job d skip_resync = set_phase addon d.phase d.requeue
  act addon inst pvc_name spec job d create_job =
      create_then addon inst pvc_name spec (set_phase addon d.phase d.requeue)

  sync_with : OdooAddon → OdooInstance → String → Resolved → Reply (Option Job) → SyncPass
  unfolding act sync_input decide_addon_sync
  sync_with addon inst pvc_name spec (refused e) = end 0 (some (api e))
  sync_with addon inst pvc_name spec (got job) =
      let d = decide_addon_sync (sync_input addon spec job) in
      act addon inst pvc_name spec job d d.action

  -- syncAddon
  unfoldable pub sync_addon : OdooAddon → OdooInstance → String → SyncPass
  unfolding sync_with resolve_sync_spec
  sync_addon addon inst pvc_name =
      sync_with addon inst pvc_name (resolve_sync_spec tools.parse_url addon) r.job

  -- reconcileOdooAddon once the instance was read
  volume_then : OdooAddon → OdooInstance → Reply String → SyncPass
  unfolding sync_addon pending addons_pvc_name
  volume_then addon inst (got phase) =
      if phase == "Bound"
      then sync_addon addon inst (addons_pvc_name inst.meta.name)
      else pending addon reason_volume_not_bound (not_bound_message inst)
  volume_then addon inst (refused e) =
      if is_not_found e
      then pending addon reason_volume_not_bound (not_bound_message inst)
      else end 0 (some (api e))

  instance_then : OdooAddon → Reply OdooInstance → SyncPass
  unfolding volume_then pending
  instance_then addon (got inst) = volume_then addon inst r.claim
  instance_then addon (refused e) =
      if is_not_found e
      then pending addon reason_instance_not_found (no_instance_message addon)
      else end 0 (some (api e))

  -- reconcileOdooAddon
  unfoldable pub reconcile_odoo_addon : OdooAddon → SyncPass
  unfolding mark_failed pending instance_then
  reconcile_odoo_addon addon =
      let ns = addon.spec.instance_ref.namespace in
      if not (ns == "") && not (ns == addon.meta.namespace)
      then mark_failed addon reason_invalid_spec "cross-namespace instanceRef is not supported"
      else if addon.spec.instance_ref.name == ""
      then pending addon reason_instance_not_found "spec.instanceRef.name is empty"
      else instance_then addon r.instance_reply
