-- ===== src/Addon/Deletion.antt =====
-- handleFinalizer and finishDeletion of internal/controller/odooaddon_controller.go: what a pass does
-- for an OdooAddon that is being deleted.
pub mod Ends
use odoo_k8_operator.Base.{
  ℕ, ◌-◌, String, Bool, true, false, ◌&&◌, ◌||◌, not, ◌⧺◌, ◌==◌, ltb, if◌then◌else◌, List, [], ◌∷◌,
  ◌++◌, Option, none, some,
}
use odoo_k8_operator.Kube.{ApiError, Reply, got, refused, Time, Pod}
use odoo_k8_operator.Kube.Batch.{Job, NewJob}
use odoo_k8_operator.Kube.Retry.{is_not_found, is_conflict, is_already_exists}
use odoo_k8_operator.Errors.{Error, api, wrap}
use odoo_k8_operator.Api.{OdooAddon}
use odoo_k8_operator.Api.Instance.{OdooInstance}
use odoo_k8_operator.Names.{addons_pvc_name}
use odoo_k8_operator.Events.{StatusEvent, Recorded, warning, emit_events}
use odoo_k8_operator.JobStatus.{odoo_pod_node}
use odoo_k8_operator.Addon.State.{observe_sync_job, addon_stale_job_requeue}
use odoo_k8_operator.Addon.Job.{SyncJobOptions, job_options, build_cleanup_job}
use odoo_k8_operator.Addon.Pass.{delete_error}

-- The answers that a pass gets.
pub record DeletionReads : Type 0 where
  pub has_finalizer : Bool
  -- syncJobImage
  pub image : String
  -- getSyncJob and getCleanupJob; a Job that is not there is `none`
  pub sync_job : Reply (Option Job)
  pub cleanup_job : Reply (Option Job)
  pub instance_reply : Reply OdooInstance
  -- The error of the read of the claim
  pub claim : Option ApiError
  -- The pods of the instance
  pub pods : Reply (List Pod)
  pub set_owner : Option Error
  pub create : Option ApiError
  pub delete_sync : Option ApiError
  pub delete_cleanup : Option ApiError
  pub update : Option ApiError
  pub recorder : Bool
  pub now : Time

-- What a pass did.
pub record DeletionPass : Type 0 where
  -- The Jobs that were deleted, or that were gone already
  pub deleted : List Job
  pub created : Option NewJob
  -- The finalizer was removed.
  pub released : Bool
  pub events : List Recorded
  -- In seconds
  pub requeue : ℕ
  pub error : Option Error

-- A pass that waits, or that has nothing to do.
unfoldable pub wait_seconds : ℕ → DeletionPass
wait_seconds seconds = record {
  deleted = [];
  created = none;
  released = false;
  events = [];
  requeue = seconds;
  error = none;
}

unfoldable pub fail_deletion : Error → DeletionPass
unfolding wait_seconds
fail_deletion e = record (wait_seconds 0) { error = some e }

abbrev pub addon_cleanup_requeue : ℕ
addon_cleanup_requeue = 5

-- In seconds
abbrev pub cleanup_timeout : ℕ
cleanup_timeout = 180

-- What addonVolume comes to.
pub data AddonVolume : Type 0 where
  no_volume : AddonVolume
  unknown_volume : Error → AddonVolume
  volume_of : OdooInstance → String → AddonVolume

unfoldable pub missing_or : ApiError → AddonVolume
missing_or e = if is_not_found e then no_volume else unknown_volume (api e)

unfoldable pub volume_at : OdooInstance → Option ApiError → AddonVolume
unfolding missing_or addons_pvc_name
volume_at inst none = volume_of inst (addons_pvc_name inst.meta.name)
volume_at inst (some e) = missing_or e

unfoldable pub volume_read : Option ApiError → Reply OdooInstance → AddonVolume
unfolding missing_or volume_at
volume_read claim (refused e) = missing_or e
volume_read claim (got inst) = volume_at inst claim

-- addonVolume
unfoldable pub addon_volume : DeletionReads → OdooAddon → AddonVolume
unfolding volume_read
addon_volume r addon =
    let ref = addon.spec.instance_ref in
    if ref.name == "" || (not (ref.namespace == "") && not (ref.namespace == addon.meta.namespace))
    then no_volume
    else volume_read r.claim r.instance_reply

cleanup_event : String → String → StatusEvent
cleanup_event reason message = record {
  type = warning;
  reason = reason;
  action = "Cleanup";
  message = message;
  related_upgrade = "";
}

module _ (controlled : Job → OdooAddon → Bool) (r : DeletionReads) (addon : OdooAddon) where
  -- The Update that removes the finalizer.
  unfoldable pub release : List Job → Option ApiError → DeletionPass
  unfolding wait_seconds fail_deletion
  release jobs none = record (wait_seconds 0) { deleted = jobs; released = true }
  release jobs (some e) = record (fail_deletion (api e)) { deleted = jobs }

  unfoldable pub delete_next :
      List Job → Job → Option Error → (List Job → DeletionPass) → DeletionPass
  unfolding fail_deletion
  delete_next jobs job (some e) next = record (fail_deletion e) { deleted = jobs }
  delete_next jobs job none next = next (jobs ++ (job ∷ []))

  unfoldable pub finish_cleanup : List Job → Option Job → DeletionPass
  unfolding release delete_next delete_error
  finish_cleanup jobs none = release jobs r.update
  finish_cleanup jobs (some job) =
      delete_next jobs job (delete_error r.delete_cleanup) (λ js. release js r.update)

  -- finishDeletion; a sync Job is given where the addon controls it
  unfoldable pub finish_deletion : Option Job → Option Job → DeletionPass
  unfolding finish_cleanup delete_next delete_error
  finish_deletion none cleanup = finish_cleanup [] cleanup
  finish_deletion (some job) cleanup =
      delete_next [] job (delete_error r.delete_sync) (λ js. finish_cleanup js cleanup)

  unfoldable pub with_event : StatusEvent → DeletionPass → DeletionPass
  unfolding emit_events
  with_event e p = record p { events = emit_events r.recorder addon.meta.namespace (e ∷ []) }

  -- createCleanupJob
  unfoldable pub create_cleanup : SyncJobOptions → Option Error → Option ApiError → DeletionPass
  unfolding wait_seconds fail_deletion build_cleanup_job
  create_cleanup o (some e) answer = fail_deletion e
  create_cleanup o none none = record (wait_seconds addon_cleanup_requeue) {
    created = some (build_cleanup_job addon o);
  }
  create_cleanup o none (some e) =
      if is_already_exists e
      then wait_seconds addon_cleanup_requeue
      else fail_deletion (wrap "failed to create cleanup job: " (api e))

  -- The cleanup Job is the addon's: its outcome, or its age
  unfoldable pub judge_cleanup : Job → DeletionPass
  unfolding observe_sync_job finish_deletion with_event cleanup_event wait_seconds
  judge_cleanup job =
      let observed = observe_sync_job controlled (some job) addon in
      if observed.succeeded
      then finish_deletion none (some job)
      else if observed.failed
      then with_event
          (cleanup_event "CleanupFailed" (
            "cleanup Job failed; the addon's files may remain on the addons volume. "
            ⧺ "The finalizer is removed anyway"))
          (finish_deletion none (some job))
      else if ltb cleanup_timeout (r.now - job.meta.created)
      then with_event
          (cleanup_event "CleanupTimeout"
            "cleanup Job still running after 3m0s; the finalizer is removed anyway")
          (finish_deletion none (some job))
      else wait_seconds addon_cleanup_requeue

  unfoldable pub clean_up : OdooInstance → String → Reply (Option Job) → DeletionPass
  unfolding fail_deletion job_options odoo_pod_node create_cleanup finish_deletion judge_cleanup
  clean_up inst pvc_name (refused e) = fail_deletion (api e)
  clean_up inst pvc_name (got none) =
      create_cleanup (job_options r.image inst pvc_name (odoo_pod_node r.pods)) r.set_owner r.create
  clean_up inst pvc_name (got (some job)) =
      if not (controlled job addon) then finish_deletion none none else judge_cleanup job

  -- handleFinalizer once it has the sync Job, which is given where the addon controls it
  unfoldable pub with_volume : Option Job → AddonVolume → DeletionPass
  unfolding fail_deletion finish_deletion clean_up delete_error wait_seconds
  with_volume owned no_volume = finish_deletion owned none
  with_volume owned (unknown_volume e) = fail_deletion e
  with_volume none (volume_of inst pvc_name) = clean_up inst pvc_name r.cleanup_job
  with_volume (some job) (volume_of inst pvc_name) =
      delete_next [] job (delete_error r.delete_sync)
        (λ js. record (wait_seconds addon_stale_job_requeue) { deleted = js })

  unfoldable pub owned_job : Option Job → Option Job
  owned_job none = none
  owned_job (some job) = if controlled job addon then some job else none

  unfoldable pub sync_read : Reply (Option Job) → DeletionPass
  unfolding fail_deletion with_volume owned_job addon_volume
  sync_read (refused e) = fail_deletion (api e)
  sync_read (got job) = with_volume (owned_job job) (addon_volume r addon)

  -- handleFinalizer
  unfoldable pub handle_finalizer : DeletionPass
  unfolding sync_read wait_seconds
  handle_finalizer = if not r.has_finalizer then wait_seconds 0 else sync_read r.sync_job
