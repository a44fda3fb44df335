-- ===== src/Addon/Pass.antt =====
-- What a pass over an OdooAddon reads and does, and how it reports a failed Job: internal/controller/
-- odooaddon_controller.go. A pass is a function of the answers that its API calls get, of the Job's log
-- and of the clock; it returns what it did.
use odoo_k8_operator.Base.{
  ℕ, String, Bool, ◌||◌, not, ◌⧺◌, ◌==◌, if◌then◌else◌, List, [], Option, none, some, quote,
}
use odoo_k8_operator.Kube.{ApiError, Reply, Time, Pod}
use odoo_k8_operator.Kube.Batch.{Job, NewJob}
use odoo_k8_operator.Kube.Retry.{is_not_found, is_conflict}
use odoo_k8_operator.PodLogs.{LogReads}
use odoo_k8_operator.Backup.Logs.{backup_tail}
use odoo_k8_operator.Errors.{Result, ok, err, Error, api}
use odoo_k8_operator.Api.{OdooAddon, OdooAddonStatus}
use odoo_k8_operator.Api.Instance.{OdooInstance}
use odoo_k8_operator.JobStatus.{failed_condition, condition_text, trim_space}
use odoo_k8_operator.Names.{addons_pvc_name}
use odoo_k8_operator.Events.{Recorded}
use odoo_k8_operator.Addon.Spec.{UrlUser}

-- The functions of other packages.
pub record SyncTools : Type 0 where
  -- url.Parse
  pub parse_url : String → Option UrlUser
  -- hexadecimal SHA-256 of a JSON list
  pub digest : List String → String
  -- metav1.IsControlledBy
  pub controlled : Job → OdooAddon → Bool

-- The answers that a pass gets.
pub record SyncReads : Type 0 where
  pub instance_reply : Reply OdooInstance
  -- The phase of the claim
  pub claim : Reply String
  -- getSyncJob; a Job that is not there is `none`
  pub job : Reply (Option Job)
  pub logs : LogReads
  pub delete : Option ApiError
  -- syncJobImage, and the pods of the instance
  pub image : String
  pub pods : Reply (List Pod)
  -- SetControllerReference, in createSyncJob
  pub set_owner : Option Error
  pub create : Option ApiError
  pub update : Option ApiError
  pub recorder : Bool
  pub now : Time

-- What a pass did.
pub record SyncPass : Type 0 where
  pub written : Option OdooAddonStatus
  -- The Job that it asked to delete
  pub deleted : Option Job
  -- The Job that it created
  pub created : Option NewJob
  pub events : List Recorded
  pub requeue_after : ℕ
  pub error : Option Error

unfoldable pub end : ℕ → Option Error → SyncPass
end requeue e = record {
  written = none;
  deleted = none;
  created = none;
  events = [];
  requeue_after = requeue;
  error = e;
}

-- jobFailureReason of odooaddon_controller.go
unfoldable pub job_failure_reason : Job → String
unfolding failed_condition condition_text trim_space
job_failure_reason job = elim (failed_condition job.status.conditions) [
  | some c ↦ trim_space (condition_text c)
  | none ↦ "sync job " ⧺ job.meta.name ⧺ " failed"
]

-- readJobLogs returns "" with an error.
unfoldable pub logs_text : Result String → String
logs_text (err e) = ""
logs_text (ok logs) = logs

-- The end of a log that was read, under the message.
unfoldable pub with_log_tail : String → Result String → String
unfolding backup_tail
with_log_tail msg (err e) = msg
with_log_tail msg (ok logs) =
    let tail = backup_tail logs 2000 in
    if not (tail == "") then msg ⧺ "\n--- last log lines ---\n" ⧺ tail else msg

-- deleteJob: a Job that is gone or was replaced is not an error.
unfoldable pub delete_error : Option ApiError → Option Error
delete_error none = none
delete_error (some e) = if is_not_found e || is_conflict e then none else some (api e)

abbrev pub not_bound_message : OdooInstance → String
not_bound_message inst =
    "addons PVC " ⧺ quote (addons_pvc_name inst.meta.name) ⧺ " is not Bound yet"

abbrev pub no_instance_message : OdooAddon → String
no_instance_message addon =
    "OdooInstance "
    ⧺ quote addon.spec.instance_ref.name
    ⧺ " not found in namespace "
    ⧺ quote addon.meta.namespace
