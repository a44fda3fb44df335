-- ===== src/Instance/Reconcile.antt =====
-- internal/controller/odooinstance_controller.go: Reconcile and reconcileOdooInstance.
pub mod Ready
pub mod Safe
pub mod Decisions
pub mod Rollout
pub mod Every
use odoo_k8_operator.Base.{
  ℕ, ℤ, pos, String, Bool, true, false, not, ◌==◌, if◌then◌else◌, List, [], ◌∷◌, ◌++◌, Option, none,
  some, ◌⊎◌, inl, inr,
}
use odoo_k8_operator.Kube.{ApiError, Reply, got, refused}
use odoo_k8_operator.Kube.Retry.{is_not_found}
use odoo_k8_operator.Errors.{Error, api, error_text, reconcile_error_reason}
use odoo_k8_operator.Api.Instance.{OdooInstance, OdooInstanceStatus}
use odoo_k8_operator.Phases.{phase_creating}
use odoo_k8_operator.Conditions.{set_conditions}
use odoo_k8_operator.Conditions.Instance.{InstanceCondFacts, instance_conditions, instance_summary}
use odoo_k8_operator.Events.{StatusEvent, Recorded, instance_events, emit_events}
use odoo_k8_operator.Instance.Gate.{GateDecision}
use odoo_k8_operator.Instance.Init.{InitDecision}
use odoo_k8_operator.Instance.Addons.{addon_mount_paths, addons_hash, config_hash, secrets_hash}
use odoo_k8_operator.Instance.Workload.{RolloutHashes, desired_replicas}
use odoo_k8_operator.Instance.Pass.{
  InstanceWrite, added_finalizer, removed_finalizer, stored_status, InstanceReads, InstanceTools,
  Step, Prog, pure, current, set_status, write, api_error, ◌>>=◌, ◌>>◌,
}
use odoo_k8_operator.Instance.Storage.{reconcile_pvc}
use odoo_k8_operator.Instance.Cron.{reconcile_cron, apply_cron_condition}
use odoo_k8_operator.Instance.Parts.{
  Findings, Outcome, final_phase, final_ready, final_requeue, cond_facts, error_is_conflict,
  init_events,
}
use odoo_k8_operator.Instance.Parts.Steps.{
  referenced_secrets, list_ready_addons, rendered, reconcile_config_map, initialization, gating,
  reconcile_deployment, reconcile_pdb, reconcile_service,
}

-- phaseFailing
abbrev pub phase_failing : String
phase_failing = "Failed"

-- conflictRequeue, in seconds
abbrev pub conflict_requeue : ℕ
conflict_requeue = 1

-- What a pass did: the writes that went through, the events, and the result.
pub record InstancePass : Type 0 where
  pub writes : List InstanceWrite
  pub events : List Recorded
  pub requeue_after : ℕ
  pub error : Option Error

-- conflictResult
unfoldable pub conflict_result : List InstanceWrite → Error → InstancePass
unfolding error_is_conflict
conflict_result ws e =
    if error_is_conflict e
    then record { writes = ws; events = []; requeue_after = conflict_requeue; error = none }
    else record { writes = ws; events = []; requeue_after = 0; error = some e }

-- What Reconcile reports of an error.
unfoldable pub failing_facts : Error → InstanceCondFacts
unfolding error_text reconcile_error_reason
failing_facts e = record {
  phase = phase_failing;
  deployment_found = false;
  ready_replicas = pos 0;
  desired_replicas = pos 0;
  active_upgrade = "";
  upgrade_message = "";
  init_upgrade = "";
  init_message = "";
  err_reason = reconcile_error_reason e;
  err_message = error_text e;
}

module _ (t : InstanceTools) (r : InstanceReads) where
  -- The status at the end of a pass.
  unfoldable pub final_status : OdooInstance → Findings → OdooInstanceStatus
  unfolding final_phase final_ready cond_facts apply_cron_condition set_conditions
      instance_conditions instance_summary
  final_status inst f =
      let m = t.machinery.conditions in
      let cs =
        set_conditions m (apply_cron_condition m inst.status.conditions inst.meta.generation f.cron)
          inst.meta.generation (instance_conditions (cond_facts inst f)) in
      record inst.status {
        addon_paths = f.paths;
        phase = final_phase inst f;
        ready = final_ready inst f;
        conditions = cs;
        message = instance_summary m cs;
      }

  -- The result and the events once the status was written.
  unfoldable pub settled : OdooInstanceStatus → OdooInstanceStatus → Findings → Outcome
  unfolding final_requeue instance_events init_events
  settled before st f = record {
    requeue = final_requeue f;
    events =
        instance_events t.machinery.conditions before st f.gate.succeeded_upgrade
        ++ (init_events f.init ++ f.cron.events);
  }

  -- The end of reconcileOdooInstance: the status write and the events of it.
  unfoldable pub settle : OdooInstanceStatus → Findings → Prog Outcome
  unfolding final_status settled
  settle before f = do
    inst ← current
    set_status (λ st. final_status inst f)
    write (api_error r.write_status) (stored_status (final_status inst f))
    pure (settled before (final_status inst f) f)

  -- reconcileOdooInstance from the Deployment on
  unfoldable pub roll_out :
      OdooInstance
      → OdooInstanceStatus
      → List String
      → GateDecision
      → InitDecision
      → RolloutHashes
      → Prog Outcome
  unfolding desired_replicas reconcile_deployment reconcile_pdb reconcile_service reconcile_cron
      settle
  roll_out inst before paths gate dec hashes = do
    reconcile_deployment t r inst hashes (if dec.pending then pos 0 else desired_replicas inst.spec)
    reconcile_pdb t r inst
    reconcile_service t r inst
    cron ← reconcile_cron r inst hashes dec.pending
    settle before
        (record { paths = paths; gate = gate; init = dec; deployment = r.deployment; cron = cron })

  -- reconcileOdooInstance; the spec and the metadata of the instance stay as they are.
  unfoldable pub reconcile_odoo_instance : OdooInstance → Prog Outcome
  unfolding reconcile_pvc rendered reconcile_config_map referenced_secrets list_ready_addons
      initialization gating roll_out addon_mount_paths addons_hash config_hash secrets_hash
  reconcile_odoo_instance inst = do
    set_status
        (λ st. record st { phase = phase_creating; observed_generation = inst.meta.generation })
    reconcile_pvc t r inst
    conf ← rendered t r inst
    reconcile_config_map t r inst conf
    secrets ← referenced_secrets t r inst
    addons ← list_ready_addons t r inst
    dec ← initialization t r
    gate ← gating t r dec (addons_hash t.sha addons)
    roll_out inst inst.status (addon_mount_paths addons) gate dec (record {
      config = config_hash t.sha conf;
      secrets = secrets_hash t.sha t.hex secrets;
      addons = gate.template_hash;
    })

  -- The status that Reconcile writes after an error.
  unfoldable pub failing_status : OdooInstance → Error → OdooInstanceStatus
  unfolding set_conditions instance_conditions instance_summary failing_facts
  failing_status inst e =
      let m = t.machinery.conditions in
      let cs =
        set_conditions m inst.status.conditions inst.meta.generation
          (instance_conditions (failing_facts e)) in
      record inst.status {
        phase = phase_failing;
        ready = false;
        conditions = cs;
        message = instance_summary m cs;
      }

  -- Reconcile after an error of the pass that is no conflict, with the answer to the status write
  fail_answered :
      OdooInstanceStatus
      → List InstanceWrite
      → OdooInstance
      → Error
      → Option ApiError
      → InstancePass
  unfolding failing_status instance_events emit_events
  fail_answered before ws inst e (some err) = record {
    writes = ws;
    events = [];
    requeue_after = 0;
    error = some e;
  }
  fail_answered before ws inst e none = record {
    writes = ws ++ (stored_status (failing_status inst e) ∷ []);
    events =
        emit_events r.recorder inst.meta.namespace
          (instance_events t.machinery.conditions before (failing_status inst e) "");
    requeue_after = 0;
    error = some e;
  }

  unfoldable pub fail_pass :
      OdooInstanceStatus → List InstanceWrite → OdooInstance → Error → InstancePass
  unfolding fail_answered
  fail_pass before ws inst e = fail_answered before ws inst e r.write_failed_status

  -- Reconcile once reconcileOdooInstance returned; `first` is what was written before it.
  conclude : OdooInstanceStatus → List InstanceWrite → Step Outcome → Error ⊎ Outcome → InstancePass
  unfolding fail_pass conflict_result error_is_conflict emit_events
  conclude before first s (inr out) = record {
    writes = first ++ s.writes;
    events = emit_events r.recorder s.after.meta.namespace out.events;
    requeue_after = out.requeue;
    error = none;
  }
  conclude before first s (inl e) =
      if error_is_conflict e
      then conflict_result (first ++ s.writes) e
      else fail_pass before (first ++ s.writes) s.after e

  run_from : List InstanceWrite → OdooInstance → InstancePass
  unfolding reconcile_odoo_instance conclude
  run_from first inst =
      let s = reconcile_odoo_instance inst inst in conclude inst.status first s s.result

  -- An Update of the metadata and what comes after it.
  after_update :
      Option ApiError → InstanceWrite → (List InstanceWrite → InstancePass) → InstancePass
  unfolding conflict_result
  after_update (some e) w next = conflict_result [] (api e)
  after_update none w next = next (w ∷ [])

  -- A pass with nothing more to do
  done_pass : List InstanceWrite → InstancePass
  done_pass ws = record { writes = ws; events = []; requeue_after = 0; error = none }

  reconcile_read : Reply OdooInstance → InstancePass
  unfolding after_update run_from done_pass
  reconcile_read (refused e) =
      if is_not_found e
      then done_pass []
      else record { writes = []; events = []; requeue_after = 0; error = some (api e) }
  reconcile_read (got inst) =
      if r.deleting
      then (if r.has_finalizer
          then after_update r.update_metadata removed_finalizer done_pass
          else done_pass [])
      else if not r.has_finalizer
      then after_update r.update_metadata added_finalizer (λ ws. run_from ws inst)
      else run_from [] inst

  -- Reconcile
  unfoldable pub instance_reconcile : InstancePass
  unfolding reconcile_read
  instance_reconcile = reconcile_read r.instance_reply
