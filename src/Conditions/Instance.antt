-- ===== src/Conditions/Instance.antt =====
-- instanceConditions and instanceSummary of internal/controller/conditions.go.
use odoo_k8_operator.Base.{
  ℤ, ◌≤ℤ◌, String, Bool, true, false, ◌&&◌, not, ◌⧺◌, ◌==◌, if◌then◌else◌, List, [], ◌∷◌, Option,
  none, some, signed, quote,
}
use odoo_k8_operator.Kube.{Condition, CondStatus, cond_true, cond_false}
use odoo_k8_operator.Kube.Meta.{ConditionSet}
use odoo_k8_operator.Api.Reasons.{
  type_ready, type_progressing, type_degraded, reason_reconcile_error, reason_all_replicas_ready,
  reason_deployment_not_ready, reason_as_expected, reason_reconciled, reason_upgrading,
  reason_initializing, reason_initialization_failed, reason_upgrade_failed, reason_reconciling,
}
use odoo_k8_operator.Phases.{
  phase_running, gate_phase_upgrading, phase_initializing, phase_init_failed,
  gate_phase_upgrade_failed,
}
use odoo_k8_operator.Conditions.{new_condition}

-- instanceCondFacts
pub record InstanceCondFacts : Type 0 where
  pub phase : String
  pub deployment_found : Bool
  pub ready_replicas : ℤ
  pub desired_replicas : ℤ
  pub active_upgrade : String
  pub upgrade_message : String
  pub init_upgrade : String
  pub init_message : String
  pub err_reason : String
  pub err_message : String

pub replicas_text : InstanceCondFacts → String
replicas_text f = signed f.ready_replicas ⧺ "/" ⧺ signed f.desired_replicas ⧺ " replicas ready"

pub waiting_text : InstanceCondFacts → String
waiting_text f =
    if not f.deployment_found
    then "Deployment not created yet"
    else "waiting for pods: " ⧺ replicas_text f

unfoldable pub ready_cond : InstanceCondFacts → Condition
unfolding new_condition
ready_cond f =
    if f.deployment_found && (f.desired_replicas ≤ℤ f.ready_replicas)
    then new_condition type_ready cond_true reason_all_replicas_ready (replicas_text f)
    else new_condition type_ready cond_false reason_deployment_not_ready (waiting_text f)

unfoldable pub healthy : Condition
unfolding new_condition
healthy = new_condition type_degraded cond_false reason_as_expected "no reconcile errors"

-- instanceConditions where ErrMessage is set: the reason, ErrReason or ReconcileError
pub error_reason : InstanceCondFacts → String
error_reason f = if f.err_reason == "" then reason_reconcile_error else f.err_reason

unfoldable pub error_conditions : String → String → List Condition
unfolding new_condition
error_conditions reason msg =
    new_condition type_ready cond_false reason msg
    ∷ new_condition type_progressing cond_false reason_reconcile_error
        "reconcile stopped by an error; it is retried"
    ∷ new_condition type_degraded cond_true reason msg
    ∷ []

-- init_msg_failed_default
abbrev pub init_msg_failed_default : String
init_msg_failed_default = "initialisation failed"

-- The conditions of an instance that is held because an upgrade failed
unfoldable pub held_conditions : String → String → String → List Condition
unfolding new_condition
held_conditions reason progress msg =
    new_condition type_ready cond_false reason msg
    ∷ new_condition type_progressing cond_false reason progress
    ∷ new_condition type_degraded cond_true reason msg
    ∷ []

-- The message in phase InitFailed
pub init_failed_message : InstanceCondFacts → String
init_failed_message f =
    "OdooUpgrade "
    ⧺ quote f.init_upgrade
    ⧺ " failed; pods stay at 0 replicas: "
    ⧺ (if f.init_message == "" then init_msg_failed_default else f.init_message)

-- The message in phase UpgradeFailed
pub held_message : InstanceCondFacts → String
held_message f =
    let held =
      "OdooUpgrade "
      ⧺ quote f.active_upgrade
      ⧺ " failed; pods stay on the previous addons revision" in
    if not (f.upgrade_message == "") then held ⧺ ": " ⧺ f.upgrade_message else held

-- Phase Running
unfoldable pub running_conditions : InstanceCondFacts → List Condition
unfolding new_condition healthy replicas_text
running_conditions f =
    new_condition type_ready cond_true reason_all_replicas_ready (replicas_text f)
    ∷ new_condition type_progressing cond_false reason_reconciled "no rollout in progress"
    ∷ healthy
    ∷ []

-- Phase Upgrading
unfoldable pub upgrading_conditions : InstanceCondFacts → List Condition
unfolding new_condition ready_cond healthy waiting_text
upgrading_conditions f =
    ready_cond f
    ∷ new_condition type_progressing cond_true reason_upgrading (
        "OdooUpgrade "
        ⧺ quote f.active_upgrade
        ⧺ " is running; pods stay on the previous addons revision")
    ∷ healthy
    ∷ []

-- Phase Initializing
unfoldable pub initializing_conditions : InstanceCondFacts → List Condition
unfolding new_condition healthy
initializing_conditions f =
    new_condition type_ready cond_false reason_initializing (
      "OdooUpgrade "
      ⧺ quote f.init_upgrade
      ⧺ " is initialising the database; pods stay at 0 replicas")
    ∷ new_condition type_progressing cond_true reason_initializing
        "database initialisation is running"
    ∷ healthy
    ∷ []

-- Phase InitFailed
unfoldable pub init_failed_conditions : InstanceCondFacts → List Condition
unfolding held_conditions init_failed_message
init_failed_conditions f =
    held_conditions reason_initialization_failed
      "initialisation stopped; delete the failed OdooUpgrade to retry" (init_failed_message f)

-- Phase UpgradeFailed
unfoldable pub upgrade_failed_conditions : InstanceCondFacts → List Condition
unfolding held_conditions held_message
upgrade_failed_conditions f =
    held_conditions reason_upgrade_failed "rollout held until the upgrade is fixed" (held_message f)

-- Any other phase
unfoldable pub rolling_conditions : InstanceCondFacts → List Condition
unfolding new_condition ready_cond healthy waiting_text
rolling_conditions f =
    ready_cond f
    ∷ new_condition type_progressing cond_true reason_reconciling "rolling out the Deployment"
    ∷ healthy
    ∷ []

-- The switch of instanceConditions on the phase
unfoldable pub phase_conditions : InstanceCondFacts → List Condition
unfolding running_conditions upgrading_conditions initializing_conditions init_failed_conditions
    upgrade_failed_conditions rolling_conditions
phase_conditions f =
    if f.phase == phase_running
    then running_conditions f
    else if f.phase == gate_phase_upgrading
    then upgrading_conditions f
    else if f.phase == phase_initializing
    then initializing_conditions f
    else if f.phase == phase_init_failed
    then init_failed_conditions f
    else if f.phase == gate_phase_upgrade_failed
    then upgrade_failed_conditions f
    else rolling_conditions f

unfoldable pub instance_conditions : InstanceCondFacts → List Condition
unfolding error_conditions phase_conditions error_reason
instance_conditions f =
    if not (f.err_message == "")
    then error_conditions (error_reason f) f.err_message
    else phase_conditions f

abbrev pub is_true : CondStatus → Bool
is_true cond_true = true
is_true _ = false

summary_ready : Option Condition → String
summary_ready none = ""
summary_ready (some c) = if is_true c.status then "" else c.message

summary_degraded : Option Condition → String → String
summary_degraded none other = other
summary_degraded (some c) other = if is_true c.status then c.message else other

-- instanceSummary
unfoldable pub instance_summary : ConditionSet → List Condition → String
unfolding summary_degraded summary_ready
instance_summary m conds =
    summary_degraded (m.find conds type_degraded) (summary_ready (m.find conds type_ready))
