-- ===== src/Instance/Cron.antt =====
-- internal/controller/odooinstance_cron.go without the pod template: the cron Deployment and its
-- condition, cronCondition of conditions.go.
use odoo_k8_operator.Base.{
  ℕ, ℤ, pos, ◌<ℤ◌, ◌≤ℤ◌, String, Bool, true, false, ◌&&◌, not, ◌⧺◌, if◌then◌else◌, List, [], ◌∷◌,
  none, signed, quote,
}
use odoo_k8_operator.Kube.{Condition, cond_true, cond_false, Reply, got, refused}
use odoo_k8_operator.Kube.Meta.{ConditionSet}
use odoo_k8_operator.Kube.Apps.{NewDeployment, recreate}
use odoo_k8_operator.Kube.Retry.{is_not_found}
use odoo_k8_operator.Errors.{api}
use odoo_k8_operator.Api.Reasons.{
  type_cron_ready, reason_cron_pending, reason_cron_not_ready, reason_cron_running,
}
use odoo_k8_operator.Api.Instance.{OdooInstance}
use odoo_k8_operator.Conditions.{new_condition, set_conditions}
use odoo_k8_operator.Events.{StatusEvent, normal}
use odoo_k8_operator.Names.{cron_deployment_name}
use odoo_k8_operator.Instance.Config.{cron_enabled}
use odoo_k8_operator.Instance.Workload.{RolloutHashes, cron_pod_labels, cron_selector_labels}
use odoo_k8_operator.Instance.Workload.Template.{cron_max_threads, build_cron_pod_template}
use odoo_k8_operator.Instance.Pass.{
  CronSeen, wrote_cron, deleted_cron, InstanceReads, Prog, pure, raise, write, lift, delete_step,
  ◌>>=◌, ◌>>◌,
}

-- cronOutcome
pub record CronOutcome : Type 0 where
  pub enabled : Bool
  pub deploy_found : Bool
  pub held : Bool
  pub replicas : ℤ
  pub ready : ℤ
  pub events : List StatusEvent

-- cronReplicas
unfoldable pub cron_replicas : Bool → ℤ
cron_replicas held = if held then pos 0 else pos 1

-- cronCondition
unfoldable pub cron_condition : CronOutcome → Condition
unfolding new_condition
cron_condition cron =
    if not cron.deploy_found
    then new_condition type_cron_ready cond_false reason_cron_pending
        "cron Deployment not created yet"
    else if (cron.replicas ≤ℤ pos 0) && (pos 0 ≤ℤ cron.replicas) && cron.held
    then new_condition type_cron_ready cond_false reason_cron_pending
        "no cron pod yet; pods stay at 0 replicas while the database is initialised"
    else if (cron.replicas ≤ℤ pos 0) && (pos 0 ≤ℤ cron.replicas)
    then new_condition type_cron_ready cond_false reason_cron_pending
        "no cron pod yet; with ReadWriteOnce volumes it starts once a web pod runs on the same node"
    else if cron.ready <ℤ pos 1
    then new_condition type_cron_ready cond_false reason_cron_not_ready (
        "cron pod not ready: " ⧺ signed cron.ready ⧺ "/" ⧺ signed cron.replicas ⧺ " replicas ready")
    else new_condition type_cron_ready cond_true reason_cron_running "cron pod ready"

-- applyCronCondition
unfoldable pub apply_cron_condition :
    ConditionSet → List Condition → ℕ → CronOutcome → List Condition
unfolding cron_condition set_conditions
apply_cron_condition m conds gen cron =
    if not cron.enabled
    then m.remove conds type_cron_ready
    else set_conditions m conds gen (cron_condition cron ∷ [])

cron_event : String → String → StatusEvent
cron_event reason message = record {
  type = normal;
  reason = reason;
  action = "Cron";
  message = message;
  related_upgrade = "";
}

-- The Deployment of reconcileCronDeployment
unfoldable pub cron_deployment : OdooInstance → RolloutHashes → ℤ → NewDeployment
unfolding cron_deployment_name cron_pod_labels cron_selector_labels build_cron_pod_template
cron_deployment inst hashes replicas = record {
  name = cron_deployment_name inst.meta.name;
  namespace = inst.meta.namespace;
  labels = cron_pod_labels inst.meta.name;
  replicas = replicas;
  selector = cron_selector_labels inst.meta.name;
  strategy = recreate;
  template = build_cron_pod_template inst hashes;
}

no_cron : List StatusEvent → CronOutcome
no_cron events = record {
  enabled = false;
  deploy_found = false;
  held = false;
  replicas = pos 0;
  ready = pos 0;
  events = events;
}

-- The outcome where spec.cron is off: whether the Deployment was deleted
unfoldable pub cron_gone : OdooInstance → Bool → CronOutcome
unfolding no_cron cron_event cron_deployment_name
cron_gone inst deleted = no_cron (
    if deleted
    then cron_event "CronDisabled" (
        "Deployment "
        ⧺ quote (cron_deployment_name inst.meta.name)
        ⧺ " deleted; the web pods run the scheduled actions again")
      ∷ []
    else [])

-- The outcome where it is on
unfoldable pub cron_running : OdooInstance → Bool → CronSeen → CronOutcome
unfolding cron_event cron_deployment_name cron_max_threads
cron_running inst held seen = record {
  enabled = true;
  deploy_found = true;
  held = held;
  replicas = seen.replicas;
  ready = seen.ready;
  events =
      if seen.created
      then cron_event "CronEnabled" (
          "Deployment "
          ⧺ quote (cron_deployment_name inst.meta.name)
          ⧺ " created with "
          ⧺ signed (cron_max_threads inst.spec.cron)
          ⧺ " cron worker(s); the web pods run no cron workers")
        ∷ []
      else [];
}

module _ (r : InstanceReads) where
  unfoldable pub delete_read : OdooInstance → Reply Bool → Prog Bool
  unfolding cron_deployment_name
  delete_read inst (refused e) = if is_not_found e then pure false else raise (api e)
  delete_read inst (got false) = pure false
  delete_read inst (got true) = do
    delete_step r.delete_cron (deleted_cron (cron_deployment_name inst.meta.name))
    pure true

  -- deleteCronDeployment
  unfoldable pub delete_cron_deployment : OdooInstance → Prog Bool
  unfolding delete_read
  delete_cron_deployment inst = delete_read inst r.cron

  -- reconcileCronDeployment
  unfoldable pub reconcile_cron_deployment : OdooInstance → RolloutHashes → ℤ → Prog CronSeen
  unfolding cron_deployment
  reconcile_cron_deployment inst hashes replicas = do
    seen ← lift r.write_cron
    write none (wrote_cron (cron_deployment inst hashes replicas))
    pure seen

  unfoldable pub cron_off : OdooInstance → Prog CronOutcome
  unfolding delete_cron_deployment cron_gone
  cron_off inst = do deleted ← delete_cron_deployment inst; pure (cron_gone inst deleted)

  unfoldable pub cron_on : OdooInstance → RolloutHashes → Bool → Prog CronOutcome
  unfolding reconcile_cron_deployment cron_replicas cron_running
  cron_on inst hashes held = do
    seen ← reconcile_cron_deployment inst hashes (cron_replicas held)
    pure (cron_running inst held seen)

  -- reconcileCron
  unfoldable pub reconcile_cron : OdooInstance → RolloutHashes → Bool → Prog CronOutcome
  unfolding cron_off cron_on
  reconcile_cron inst hashes held =
      if not (cron_enabled inst.spec.cron) then cron_off inst else cron_on inst hashes held
