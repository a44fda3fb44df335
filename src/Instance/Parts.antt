-- ===== src/Instance/Parts.antt =====
-- The parts of a pass over one OdooInstance (internal/controller/odooinstance_controller.go): the
-- objects that it writes, and how it ends.
pub mod Steps
use odoo_k8_operator.Base.{
  ℕ, ℤ, pos, ◌≤ℤ◌, String, Bool, true, false, ◌&&◌, not, ◌⧺◌, ◌==◌, if◌then◌else◌, List, [], ◌∷◌,
  ◌++◌, Option, none, some, ◌⊎◌, inl, inr, quote,
}
use odoo_k8_operator.Kube.{ApiError, Reply, got, refused}
use odoo_k8_operator.Kube.Apps.{NewDeployment, NewService, NewBudget}
use odoo_k8_operator.Kube.Retry.{is_not_found, is_conflict}
use odoo_k8_operator.Errors.{Error, text, api, wrap, reasoned, error_text, reconcile_error_reason}
use odoo_k8_operator.Api.{OdooAddon}
use odoo_k8_operator.Api.Reasons.{reason_invalid_config, reason_missing_secret}
use odoo_k8_operator.Api.Instance.{OdooInstance, OdooInstanceStatus}
use odoo_k8_operator.Phases.{
  phase_creating, phase_running, gate_phase_upgrade_failed, phase_init_failed,
}
use odoo_k8_operator.Conditions.{set_conditions}
use odoo_k8_operator.Conditions.Instance.{InstanceCondFacts, instance_conditions, instance_summary}
use odoo_k8_operator.Events.{StatusEvent, normal, warning, Recorded, instance_events, emit_events}
use odoo_k8_operator.Names.{config_map_name}
use odoo_k8_operator.Instance.Gate.{GateDecision, GatePass, gate_addons_rollout, NewUpgrade}
use odoo_k8_operator.Instance.Init.{InitDecision, InitPass, decide_initialization, init_hold_gate}
use odoo_k8_operator.Instance.Addons.{
  SecretData, filter_ready_addons, addon_mount_paths, addons_hash, config_hash, secrets_hash,
}
use odoo_k8_operator.Instance.Config.{render_odoo_conf}
use odoo_k8_operator.Instance.Workload.{
  RolloutHashes, desired_replicas, selector_labels, pod_labels, deployment_strategy,
  build_service_ports,
}
use odoo_k8_operator.Instance.Workload.Template.{build_pod_template}
use odoo_k8_operator.Instance.Pass.{
  InstanceWrite, added_finalizer, removed_finalizer, wrote_config_map, asked_upgrade,
  wrote_deployment, wrote_budget, deleted_budget, wrote_service, stored_status, InstanceReads,
  InstanceTools, Step, Prog, pure, raise, current, set_status, write, api_error, delete_step, lift,
  ◌>>=◌, ◌>>◌,
}
use odoo_k8_operator.Instance.Storage.{reconcile_pvc}
use odoo_k8_operator.Instance.Cron.{CronOutcome, reconcile_cron, apply_cron_condition}

-- initEvents
unfoldable pub init_events : InitDecision → List StatusEvent
init_events dec =
    (if not (dec.succeeded == "")
      then record {
        type = normal;
        reason = "Initialized";
        action = "Initialize";
        message =
            "database initialised by OdooUpgrade " ⧺ quote dec.succeeded ⧺ "; rolling out the pods";
        related_upgrade = dec.succeeded;
      }
        ∷ []
      else [])
    ++ (if dec.adopted
        then record {
          type = warning;
          reason = "InitializationSkipped";
          action = "Initialize";
          message =
              "spec.initialize is set but the Deployment already has ready pods; the database is "
              ⧺ "treated as initialised and nothing was run against it";
          related_upgrade = "";
        }
          ∷ []
        else [])

-- The Deployment of reconcileDeployment
unfoldable pub web_deployment : OdooInstance → RolloutHashes → ℤ → NewDeployment
unfolding pod_labels selector_labels deployment_strategy desired_replicas build_pod_template
web_deployment inst hashes replicas = record {
  name = inst.meta.name;
  namespace = inst.meta.namespace;
  labels = pod_labels inst.meta.name;
  replicas = replicas;
  selector = selector_labels inst.meta.name;
  strategy = deployment_strategy (desired_replicas inst.spec) inst.spec.data_volume.access_mode;
  template = build_pod_template inst hashes;
}

-- The PodDisruptionBudget of reconcilePDB and the Service of reconcileService
unfoldable pub web_budget : OdooInstance → NewBudget
unfolding pod_labels
web_budget inst = record {
  name = inst.meta.name;
  namespace = inst.meta.namespace;
  max_unavailable = 1;
  selector = pod_labels inst.meta.name;
}

unfoldable pub web_service : OdooInstance → NewService
unfolding selector_labels build_service_ports
web_service inst = record {
  name = inst.meta.name;
  namespace = inst.meta.namespace;
  selector = selector_labels inst.meta.name;
  ports = build_service_ports;
}

-- What reconcileOdooInstance knows at its end: the two decisions, the Deployment and the cron pod.
pub record Findings : Type 0 where
  pub paths : List String
  pub gate : GateDecision
  pub init : InitDecision
  pub deployment : Reply ℤ
  pub cron : CronOutcome

abbrev pub ready_replicas : Reply ℤ → ℤ
ready_replicas (got n) = n
ready_replicas (refused e) = pos 0

abbrev pub is_found : Reply ℤ → Bool
is_found (got n) = true
is_found (refused e) = false

unfoldable pub has_enough : OdooInstance → Reply ℤ → Bool
unfolding desired_replicas
has_enough inst (got n) = desired_replicas inst.spec ≤ℤ n
has_enough inst (refused e) = false

-- The phase and Ready at the end of a pass.
unfoldable pub final_phase : OdooInstance → Findings → String
unfolding has_enough
final_phase inst f =
    if f.init.pending
    then f.init.phase
    else if not (f.gate.phase == "")
    then f.gate.phase
    else if has_enough inst f.deployment
    then phase_running
    else phase_creating

unfoldable pub final_ready : OdooInstance → Findings → Bool
unfolding has_enough
final_ready inst f =
    if f.init.pending
    then false
    else if f.gate.phase == gate_phase_upgrade_failed
    then false
    else has_enough inst f.deployment

-- The requeue, in seconds
unfoldable pub final_requeue : Findings → ℕ
final_requeue f =
    if f.init.phase == phase_init_failed
    then 60
    else if f.gate.phase == gate_phase_upgrade_failed
    then 60
    else 0

unfoldable pub cond_facts : OdooInstance → Findings → InstanceCondFacts
unfolding desired_replicas final_phase
cond_facts inst f = record {
  phase = final_phase inst f;
  deployment_found = is_found f.deployment;
  ready_replicas = ready_replicas f.deployment;
  desired_replicas = desired_replicas inst.spec;
  active_upgrade = inst.status.active_upgrade;
  upgrade_message = f.gate.upgrade_message;
  init_upgrade = inst.status.init_upgrade;
  init_message = f.init.fail_message;
  err_reason = "";
  err_message = "";
}

-- What a pass comes to when it ends well.
pub record Outcome : Type 0 where
  pub requeue : ℕ
  pub events : List StatusEvent

-- isConflict: errors.IsConflict looks through wrapped errors.
unfoldable pub error_is_conflict : Error → Bool
error_is_conflict (text t) = false
error_is_conflict (api e) = is_conflict e
error_is_conflict (wrap t e) = error_is_conflict e
error_is_conflict (reasoned r e) = error_is_conflict e
