-- ===== src/JobStatus.antt =====
-- What the reconcilers read off a Job and its pods: upgradeHasCondition, upgradeJobSucceeded,
-- upgradeJobFailure, upgradeJobCompletion and upgradeOdooPodNode (internal/controller/
-- odooupgrade_controller.go), with the equal functions of odoobackup_controller.go, and
-- jobFailureReason (odooaddon_controller.go).
use odoo_k8_operator.Base.{
  ℕ, String, Bool, true, false, ◌&&◌, ◌||◌, not, ◌==◌, ltb, leb, ◌=ℕ◌, if◌then◌else◌, List, [], ◌∷◌,
  Option, none, some, any, keep, join, trim,
}
use odoo_k8_operator.Kube.{CondStatus, cond_true, JobCondition, Pod, Reply, got, refused, Time}
use odoo_k8_operator.Kube.Batch.{Job}

abbrev pub job_complete : String
job_complete = "Complete"

abbrev pub job_failed : String
job_failed = "Failed"

abbrev pub status_is_true : CondStatus → Bool
status_is_true cond_true = true
status_is_true _ = false

-- upgradeHasCondition, backupHasCondition
unfoldable pub has_condition : Job → String → Bool
has_condition job type =
    any (λ c. (c.type == type) && status_is_true c.status) job.status.conditions

-- upgradeJobSucceeded, backupJobSucceeded
unfoldable pub job_succeeded : Job → Bool
unfolding has_condition
job_succeeded job = if ltb 0 job.status.succeeded then true else has_condition job job_complete

-- upgradeNonEmpty
unfoldable pub non_empty : List String → List String
non_empty values = keep (λ v. not (v == "")) values

-- unicode.IsSpace
abbrev pub is_space : ℕ → Bool
is_space c =
    (leb 9 c && leb c 13)
    || c =ℕ 32
    || c =ℕ 0x85
    || c =ℕ 0xa0
    || c =ℕ 0x1680
    || (leb 0x2000 c && leb c 0x200a)
    || c =ℕ 0x2028
    || c =ℕ 0x2029
    || c =ℕ 0x202f
    || c =ℕ 0x205f
    || c =ℕ 0x3000

-- strings.TrimSpace
unfoldable pub trim_space : String → String
unfolding trim
trim_space s = trim is_space s

-- The reason and the message of a condition, joined.
unfoldable pub condition_text : JobCondition → String
unfolding non_empty join
condition_text c = join ": " (non_empty (c.reason ∷ c.message ∷ []))

-- The first condition that says that the Job failed.
unfoldable pub failed_condition : List JobCondition → Option JobCondition
failed_condition [] = none
failed_condition (c ∷ cs) =
    let rest = failed_condition cs in
    if (c.type == job_failed) && status_is_true c.status then some c else rest

failure_or_pods : (JobCondition → String) → String → Option JobCondition → ℕ → Option String
failure_or_pods show pod_failed (some c) failed = some (show c)
failure_or_pods show pod_failed none failed = if ltb 0 failed then some pod_failed else none

-- upgradeJobFailure: the reason of a Job that failed
unfoldable pub upgrade_job_failure : Job → Option String
unfolding failed_condition failure_or_pods trim_space condition_text
upgrade_job_failure job =
    failure_or_pods (λ c. trim_space (condition_text c)) "upgrade pod failed"
      (failed_condition job.status.conditions) job.status.failed_pods

-- backupJobFailure, which trims nothing
unfoldable pub backup_job_failure : Job → Option String
unfolding failed_condition failure_or_pods condition_text
backup_job_failure job =
    failure_or_pods condition_text "backup pod failed" (failed_condition job.status.conditions)
      job.status.failed_pods

-- upgradeJobCompletion, backupJobCompletion
unfoldable pub job_completion : Time → Job → Time
job_completion now job = elim job.status.completion_time [ some t ↦ t | none ↦ now ]

-- The first running pod with a node.
unfoldable pub running_node : List Pod → String
running_node [] = ""
running_node (p ∷ ps) =
    let rest = running_node ps in
    if (p.phase == "Running") && not (p.node_name == "") then p.node_name else rest

-- upgradeOdooPodNode, backupOdooPodNode, odooPodNode
unfoldable pub odoo_pod_node : Reply (List Pod) → String
unfolding running_node
odoo_pod_node (refused e) = ""
odoo_pod_node (got pods) = running_node pods
