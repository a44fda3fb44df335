-- ===== src/Instance/Parts/Steps.antt =====
-- The steps of reconcileOdooInstance (internal/controller/odooinstance_controller.go).
use odoo_k8_operator.Base.{
  ℤ, pos, ◌≤ℤ◌, String, Bool, true, false, ◌⧺◌, ◌==◌, if◌then◌else◌, List, [], ◌∷◌, ◌++◌, Option,
  none, some, ◌⊎◌, inl, inr, quote,
}
use odoo_k8_operator.Kube.{Reply, got, refused}
use odoo_k8_operator.Kube.Retry.{is_not_found}
use odoo_k8_operator.Errors.{Error, text, api, wrap, reasoned}
use odoo_k8_operator.Api.{OdooAddon}
use odoo_k8_operator.Api.Reasons.{reason_invalid_config, reason_missing_secret}
use odoo_k8_operator.Api.Instance.{OdooInstance}
use odoo_k8_operator.Names.{config_map_name}
use odoo_k8_operator.Instance.Gate.{GateDecision, gate_addons_rollout, NewUpgrade}
use odoo_k8_operator.Instance.Init.{InitDecision, decide_initialization, init_hold_gate}
use odoo_k8_operator.Instance.Addons.{SecretData, filter_ready_addons}
use odoo_k8_operator.Instance.Config.{render_odoo_conf}
use odoo_k8_operator.Instance.Workload.{RolloutHashes, desired_replicas}
use odoo_k8_operator.Instance.Pass.{
  wrote_config_map, asked_upgrade, wrote_deployment, wrote_budget, deleted_budget, wrote_service,
  InstanceReads, InstanceTools, Prog, pure, raise, current, set_status, write, delete_step, ◌>>=◌,
  ◌>>◌,
}
use odoo_k8_operator.Instance.Parts.{web_deployment, web_budget, web_service}

module _ (t : InstanceTools) (r : InstanceReads) where
  unfoldable pub secret_at :
      OdooInstance → String → String → Reply SecretData → Prog (List SecretData)
  secret_at inst field name (got s) = pure (s ∷ [])
  secret_at inst field name (refused e) =
      if is_not_found e
      then raise (
          reasoned reason_missing_secret (
            text (
              "secret "
              ⧺ quote name
              ⧺ " referenced by "
              ⧺ field
              ⧺ " does not exist in namespace "
              ⧺ quote inst.meta.namespace)))
      else raise (wrap ("get secret " ⧺ quote name ⧺ ": ") (api e))

  -- The loop of referencedSecrets at one of its references
  unfoldable pub referenced_secret : OdooInstance → String → String → Prog (List SecretData)
  unfolding secret_at
  referenced_secret inst field name =
      if name == "" then pure [] else secret_at inst field name (r.secret name)

  -- referencedSecrets
  unfoldable pub referenced_secrets : OdooInstance → Prog (List SecretData)
  unfolding referenced_secret
  referenced_secrets inst = do
    database ←
        referenced_secret inst "spec.postgres.passwordSecret" inst.spec.postgres.password_secret
    admin ← referenced_secret inst "spec.adminPasswordSecret" inst.spec.admin_password_secret
    pure (database ++ admin)

  unfoldable pub ready_addons_of : OdooInstance → Reply (List OdooAddon) → Prog (List OdooAddon)
  unfolding filter_ready_addons
  ready_addons_of inst (got all) = pure (filter_ready_addons all inst.meta.name)
  ready_addons_of inst (refused e) = raise (api e)

  -- listReadyAddons
  unfoldable pub list_ready_addons : OdooInstance → Prog (List OdooAddon)
  unfolding ready_addons_of
  list_ready_addons inst = ready_addons_of inst r.addons

  -- renderOdooConf as the pass calls it
  abbrev pub conf_or_raise : Error ⊎ String → Prog String
  conf_or_raise (inl e) = raise (reasoned reason_invalid_config e)
  conf_or_raise (inr conf) = pure conf

  unfoldable pub rendered : OdooInstance → Prog String
  rendered inst = conf_or_raise (render_odoo_conf inst.spec)

  -- reconcileConfigMap
  unfoldable pub reconcile_config_map : OdooInstance → String → Prog (Unit {0})
  unfolding config_map_name
  reconcile_config_map inst conf =
      write r.config_map (wrote_config_map (config_map_name inst.meta.name) conf)

  -- A decision that was made; where there is none there is an error.
  abbrev pub decided : {A : Type 0} → Option A → Option Error → Prog A
  decided (some d) e = pure d
  decided none (some e) = raise e
  decided none none = raise (text "")

  abbrev pub ask : Option NewUpgrade → Prog (Unit {0})
  ask none = pure tt
  ask (some u) = write none (asked_upgrade u)

  -- decideInitialization, and what the pass keeps of it in the status
  unfoldable pub initialization : Prog InitDecision
  initialization = do
    inst ← current
    let p = decide_initialization inst r.init
    ask p.asked
    dec ← decided p.decision p.error
    set_status (λ st. record st { initialized = dec.initialized; init_upgrade = dec.upgrade_name })
    pure dec

  -- gateAddonsRollout, which sets status fields of the instance
  unfoldable pub rolling : String → Prog GateDecision
  rolling hash = do
    inst ← current
    let p = gate_addons_rollout inst r.gate hash
    ask p.asked
    dec ← decided p.decision p.error
    set_status (λ st. p.instance_after.status)
    pure dec

  -- initHoldGate
  unfoldable pub holding : String → Prog GateDecision
  unfolding init_hold_gate
  holding hash = do
    inst ← current
    set_status (λ st. (init_hold_gate inst hash).0.status)
    pure (init_hold_gate inst hash).1

  -- The revision that the pods are to run.
  unfoldable pub gating : InitDecision → String → Prog GateDecision
  unfolding rolling holding
  gating dec hash = if dec.pending then holding hash else rolling hash

  -- reconcileDeployment
  unfoldable pub reconcile_deployment : OdooInstance → RolloutHashes → ℤ → Prog (Unit {0})
  unfolding web_deployment
  reconcile_deployment inst hashes replicas =
      write r.write_deployment (wrote_deployment (web_deployment inst hashes replicas))

  unfoldable pub budget_read : OdooInstance → Reply Bool → Prog (Unit {0})
  budget_read inst (refused e) = if is_not_found e then pure tt else raise (api e)
  budget_read inst (got false) = pure tt
  budget_read inst (got true) = delete_step r.delete_budget (deleted_budget inst.meta.name)

  -- deletePDBIfOwned
  unfoldable pub delete_pdb_if_owned : OdooInstance → Prog (Unit {0})
  unfolding budget_read
  delete_pdb_if_owned inst = budget_read inst r.budget

  -- reconcilePDB
  unfoldable pub reconcile_pdb : OdooInstance → Prog (Unit {0})
  unfolding desired_replicas delete_pdb_if_owned web_budget
  reconcile_pdb inst =
      if desired_replicas inst.spec ≤ℤ pos 1
      then delete_pdb_if_owned inst
      else write r.write_budget (wrote_budget (web_budget inst))

  -- reconcileService
  unfoldable pub reconcile_service : OdooInstance → Prog (Unit {0})
  unfolding web_service
  reconcile_service inst = write r.service (wrote_service (web_service inst))
