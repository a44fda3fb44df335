-- ===== src/Addon/Sync/Allowed.antt =====
-- What a pass over an OdooAddon is allowed to do, in terms of what it read.
use odoo_k8_operator.Base.{true, ◌==◌, none, some, ◌≡◌, ◌⊎◌}
use odoo_k8_operator.Kube.{got}
use odoo_k8_operator.Kube.Batch.{Job, NewJob, label_of}
use odoo_k8_operator.PodLogs.{read_job_logs}
use odoo_k8_operator.Api.{OdooAddon, OdooAddonStatus}
use odoo_k8_operator.Api.Instance.{OdooInstance}
use odoo_k8_operator.Names.{addons_pvc_name}
use odoo_k8_operator.JobStatus.{odoo_pod_node}
use odoo_k8_operator.Addon.Job.{job_options, build_sync_job}
use odoo_k8_operator.Phases.{phase_synced}
use odoo_k8_operator.Addon.State.{observe_sync_job, annotation_sync_spec_hash}
use odoo_k8_operator.Addon.Spec.{SyncSpec, resolved, resolve_sync_spec, sync_spec_hash}
use odoo_k8_operator.Addon.Output.{output, read_sync_output}
use odoo_k8_operator.Addon.Pass.{SyncTools, SyncReads, SyncPass}

-- Ready goes with the phase Synced.
abbrev pub IsConsistent : OdooAddonStatus → Type 0
IsConsistent s = s.ready ≡ (s.phase == phase_synced)

-- The Job that a pass read, built from the addon's present spec and its own, succeeded, and its log
-- gives what the status says.
pub record Evidence (tools : SyncTools) (r : SyncReads) (addon : OdooAddon) (st : OdooAddonStatus)
    : Type 0 where
  pub job : Job
  pub spec : SyncSpec
  pub was_read : r.job ≡ got (some job)
  pub controlled : tools.controlled job addon ≡ true
  pub succeeded : (observe_sync_job tools.controlled (some job) addon).succeeded ≡ true
  pub valid : resolve_sync_spec tools.parse_url addon ≡ resolved spec
  pub same_spec :
      label_of job.annotations annotation_sync_spec_hash ≡ sync_spec_hash tools.digest spec
  pub log : read_sync_output job (read_job_logs r.logs job) ≡ output st.cloned_commit st.modules

-- A status that a pass may leave.
pub record IsGood (tools : SyncTools) (r : SyncReads) (addon : OdooAddon) (st : OdooAddonStatus)
    : Type 0 where
  pub consistent : IsConsistent addon.status → IsConsistent st
  pub synced :
      st.phase ≡ phase_synced
      → ((addon.status.phase ≡ phase_synced) × (st.cloned_commit ≡ addon.status.cloned_commit))
        ⊎ Evidence tools r addon st

-- The pass read that there is no sync Job, that the instance is there and that its claim is Bound;
-- the Job is that of the addon's present valid spec, for that claim, with the node of one
-- of the instance's running pods, if there is one.
pub record IsCalledFor (tools : SyncTools) (r : SyncReads) (addon : OdooAddon) (j : NewJob)
    : Type 0 where
  pub spec : SyncSpec
  pub inst : OdooInstance
  pub none_there : r.job ≡ got none
  pub valid : resolve_sync_spec tools.parse_url addon ≡ resolved spec
  pub was_read : r.instance_reply ≡ got inst
  pub bound : r.claim ≡ got "Bound"
  pub built :
      j
      ≡ build_sync_job tools.digest addon spec
          (job_options r.image inst (addons_pvc_name inst.meta.name) (odoo_pod_node r.pods))

-- What a pass may do.
pub record Fits (tools : SyncTools) (r : SyncReads) (addon : OdooAddon) (p : SyncPass)
    : Type 0 where
  pub written : (st : OdooAddonStatus) → p.written ≡ some st → IsGood tools r addon st
  pub deleted :
      (job : Job)
      → p.deleted ≡ some job
      → (r.job ≡ got (some job)) × (tools.controlled job addon ≡ true)
  pub created : (j : NewJob) → p.created ≡ some j → IsCalledFor tools r addon j
