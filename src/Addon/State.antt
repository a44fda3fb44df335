-- ===== src/Addon/State.antt =====
-- internal/controller/odooaddon_state.go: what the next step of an addon's sync is.
pub mod Laws
use odoo_k8_operator.Base.{
  ℕ, ◌-◌, ◌+◌, String, Bool, true, false, ◌&&◌, not, ◌==◌, ltb, if◌then◌else◌, ◌||◌, Option, none,
  some,
}
use odoo_k8_operator.Kube.{Time}
use odoo_k8_operator.Kube.Batch.{Job, Labels, label_of}
use odoo_k8_operator.Api.{OdooAddon}
use odoo_k8_operator.Phases.{phase_failed, phase_synced, phase_syncing}
use odoo_k8_operator.JobStatus.{has_condition, job_complete, job_failed}

abbrev pub resync_interval : ℕ
resync_interval = 300

abbrev pub failure_backoff : ℕ
failure_backoff = 30

abbrev pub addon_stale_job_requeue : ℕ
addon_stale_job_requeue = 2

abbrev pub addon_create_requeue : ℕ
addon_create_requeue = 5

abbrev pub addon_await_requeue : ℕ
addon_await_requeue = 30

abbrev pub addon_msg_job_conflict : String
addon_msg_job_conflict = "job name conflict"

-- addonSyncAction
pub data SyncAction : Type 0 where
  invalid_spec job_conflict delete_stale_job record_success record_failure : SyncAction
  await_job cooldown skip_resync create_job : SyncAction

-- addonJobObservation
pub record JobObservation : Type 0 where
  pub exists : Bool
  pub controlled_by_addon : Bool
  pub spec_hash : String
  pub succeeded : Bool
  pub failed : Bool

-- addonSyncInput
pub record SyncInput : Type 0 where
  pub spec_err : String
  pub spec_hash : String
  pub job : JobObservation
  pub phase : String
  pub last_sync_time : Option Time
  pub skip_resync : Bool
  pub now : Time

-- addonSyncDecision; the times are seconds
pub record SyncDecision : Type 0 where
  pub action : SyncAction
  pub phase : String
  pub message : String
  pub delete_job : Bool
  pub requeue : ℕ

-- syncingPhaseFor
unfoldable pub syncing_phase_for : String → String
syncing_phase_for current = if current == phase_synced then "" else phase_syncing

-- The case of a Job that exists.
decide_job : SyncInput → SyncDecision
unfolding syncing_phase_for
decide_job input =
    if not input.job.controlled_by_addon
    then record {
      action = job_conflict;
      phase = phase_failed;
      message = addon_msg_job_conflict;
      delete_job = false;
      requeue = failure_backoff;
    }
    else if not (input.job.spec_hash == input.spec_hash)
    then record {
      action = delete_stale_job;
      phase = "";
      message = "";
      delete_job = true;
      requeue = addon_stale_job_requeue;
    }
    else if input.job.succeeded
    then record {
      action = record_success;
      phase = phase_synced;
      message = "";
      delete_job = true;
      requeue = resync_interval;
    }
    else if input.job.failed
    then record {
      action = record_failure;
      phase = phase_failed;
      message = "";
      delete_job = true;
      requeue = failure_backoff;
    }
    else record {
      action = await_job;
      phase = syncing_phase_for input.phase;
      message = "";
      delete_job = false;
      requeue = addon_await_requeue;
    }

-- The case of no Job and no cooldown.
decide_create : SyncInput → SyncDecision
unfolding syncing_phase_for
decide_create input =
    if input.skip_resync
    then record {
      action = skip_resync;
      phase = "";
      message = "";
      delete_job = false;
      requeue = resync_interval;
    }
    else record {
      action = create_job;
      phase = syncing_phase_for input.phase;
      message = "";
      delete_job = false;
      requeue = addon_create_requeue;
    }

abbrev pub sync_interval : String → ℕ
sync_interval phase = if phase == phase_failed then failure_backoff else resync_interval

-- The case of no Job. A last sync that lies in the future leaves a negative elapsed time, so that
-- elapsed < interval reads now < last + interval.
decide_cooldown : SyncInput → Option Time → SyncDecision
unfolding decide_create
decide_cooldown input none = decide_create input
decide_cooldown input (some last) =
    let interval = sync_interval input.phase in
    if ltb input.now (last + interval)
    then record {
      action = cooldown;
      phase = "";
      message = "";
      delete_job = false;
      requeue = last + interval - input.now;
    }
    else decide_create input

-- decideAddonSync
unfoldable pub decide_addon_sync : SyncInput → SyncDecision
unfolding decide_job decide_cooldown
decide_addon_sync input =
    if not (input.spec_err == "")
    then record {
      action = invalid_spec;
      phase = phase_failed;
      message = input.spec_err;
      delete_job = input.job.exists && input.job.controlled_by_addon;
      requeue = failure_backoff;
    }
    else if input.job.exists
    then decide_job input
    else decide_cooldown input input.last_sync_time

abbrev pub annotation_sync_spec_hash : String
annotation_sync_spec_hash = "odoo.operator.io/sync-spec-hash"

-- observeSyncJob; `controlled` is metav1.IsControlledBy.
unfoldable pub observe_sync_job : (Job → OdooAddon → Bool) → Option Job → OdooAddon → JobObservation
unfolding has_condition
observe_sync_job controlled none addon = record {
  exists = false;
  controlled_by_addon = false;
  spec_hash = "";
  succeeded = false;
  failed = false;
}
observe_sync_job controlled (some job) addon = record {
  exists = true;
  controlled_by_addon = controlled job addon;
  spec_hash = label_of job.annotations annotation_sync_spec_hash;
  succeeded = ltb 0 job.status.succeeded || has_condition job job_complete;
  failed = has_condition job job_failed;
}
