-- ===== src/PodLogs.antt =====
-- Reading the log of the newest pod of a Job: jobPod and readJobLogs of internal/controller/
-- odooaddon_controller.go, upgradeLogTail of odooupgrade_controller.go, backupLatestPod and
-- backupPodLogs of odoobackup_controller.go. What a stream gives up to the limit of the read is one
-- answer.
pub mod Newest
use odoo_k8_operator.Base.{
  String, Bool, not, ◌⧺◌, ltb, if◌then◌else◌, List, [], ◌∷◌, Option, none, some,
}
use odoo_k8_operator.Kube.{Reply, got, refused, Pod}
use odoo_k8_operator.Kube.Batch.{Job}
use odoo_k8_operator.Errors.{Error, text, api, Result, ok, err}
use odoo_k8_operator.Backup.Logs.{backup_tail}

-- The answers that the read of a log gets.
pub record LogReads : Type 0 where
  -- Whether a clientset is set
  pub clientset : Bool
  -- The pods with the label of the Job
  pub pods : Reply (List Pod)
  -- GetLogs, Stream and ReadAll for the name of a pod and that of a container ("" for the only one)
  pub stream : String → String → Result String

-- The loop over the pods, with the newest so far.
unfoldable pub newest_of : Pod → List Pod → Pod
newest_of best [] = best
newest_of best (p ∷ ps) = newest_of (if ltb best.created p.created then p else best) ps

-- The loop starts at the first pod.
unfoldable pub newest_pod : List Pod → Option Pod
unfolding newest_of
newest_pod [] = none
newest_pod (p ∷ ps) = some (newest_of p (p ∷ ps))

-- jobPod
unfoldable pub job_pod : Job → Reply (List Pod) → Result Pod
unfolding newest_pod
job_pod job (refused e) = err (api e)
job_pod job (got pods) = elim (newest_pod pods) [
  | none ↦ err (text ("no pod found for job " ⧺ job.meta.name))
  | some p ↦ ok p
]

log_of : LogReads → Result Pod → Result String
log_of r (err e) = err e
log_of r (ok p) = r.stream p.name ""

-- readJobLogs
unfoldable pub read_job_logs : LogReads → Job → Result String
unfolding log_of job_pod
read_job_logs r job =
    if not r.clientset
    then err (text "no clientset configured to read job logs")
    else log_of r (job_pod job r.pods)

-- backupLatestPod; also how upgradeLogTail picks its pod
unfoldable pub latest_pod : Reply (List Pod) → Option Pod
unfolding newest_pod
latest_pod (refused e) = none
latest_pod (got pods) = newest_pod pods

text_or_empty : Result String → String
text_or_empty (err e) = ""
text_or_empty (ok s) = s

-- backupPodLogs
unfoldable pub backup_pod_logs : LogReads → String → String
unfolding latest_pod text_or_empty
backup_pod_logs r container =
    if not r.clientset
    then ""
    else elim (latest_pod r.pods) [ none ↦ "" | some p ↦ text_or_empty (r.stream p.name container) ]

tail_or_empty : Result String → String
unfolding backup_tail
tail_or_empty (err e) = ""
tail_or_empty (ok s) = backup_tail s 2000

-- upgradeLogTail; upgradeTail is backupTail
unfoldable pub upgrade_log_tail : LogReads → String
unfolding latest_pod tail_or_empty
upgrade_log_tail r =
    if not r.clientset
    then ""
    else elim (latest_pod r.pods) [ none ↦ "" | some p ↦ tail_or_empty (r.stream p.name "upgrade") ]
