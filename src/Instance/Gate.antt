-- ===== src/Instance/Gate.antt =====
-- internal/controller/odooinstance_gate.go: which addons revision the pods run.
pub mod Allowed
pub mod Laws
pub mod Rollout
use odoo_k8_operator.Base.{
  ℕ, String, Bool, true, false, ◌&&◌, ◌||◌, not, ◌⧺◌, ◌==◌, if◌then◌else◌, is_some, List, [], ◌∷◌,
  Option, none, some, quote,
}
use odoo_k8_operator.Kube.{ApiError, Reply, got, refused}
use odoo_k8_operator.Kube.Batch.{Labels}
use odoo_k8_operator.Kube.Retry.{is_not_found, is_already_exists}
use odoo_k8_operator.Errors.{Error, text, api, wrap}
use odoo_k8_operator.Api.{OdooUpgrade, OdooUpgradeSpec}
use odoo_k8_operator.Api.Instance.{OdooInstance, UpgradeSpec}
use odoo_k8_operator.Phases.{
  upgrade_phase_succeeded, upgrade_phase_failed, gate_phase_upgrading, gate_phase_upgrade_failed,
}
use odoo_k8_operator.Names.{gate_upgrade_name}

-- gateInput
pub record GateInput : Type 0 where
  pub upgrade_set : Bool
  pub applied : String
  pub current : String
  pub upgrade_name : String
  pub upgrade_exists : Bool
  pub upgrade_phase : String

-- gateDecision
pub record GateDecision : Type 0 where
  pub template_hash : String
  pub applied_hash : String
  pub active_upgrade : String
  pub phase : String
  pub ensure_upgrade : Bool
  pub upgrade_message : String
  pub succeeded_upgrade : String

-- The decision to run one revision, with nothing pending.
abbrev pub roll_to : String → GateDecision
roll_to hash = record {
  template_hash = hash;
  applied_hash = hash;
  active_upgrade = "";
  phase = "";
  ensure_upgrade = false;
  upgrade_message = "";
  succeeded_upgrade = "";
}

-- The decision to stay on the applied revision.
abbrev pub held : GateInput → GateDecision
held input = record (roll_to input.applied) {
  active_upgrade = input.upgrade_name;
  phase = gate_phase_upgrading;
}

-- gateDecide
unfoldable pub gate_decide : GateInput → GateDecision
gate_decide input =
    if not input.upgrade_set || (input.applied == "")
    then roll_to input.current
    else if input.current == input.applied
    then roll_to input.applied
    else if not input.upgrade_exists
    then record (held input) { ensure_upgrade = true }
    else if input.upgrade_phase == upgrade_phase_succeeded
    then roll_to input.current
    else if input.upgrade_phase == upgrade_phase_failed
    then record (held input) { phase = gate_phase_upgrade_failed }
    else held input

abbrev pub gate_label_instance : String
gate_label_instance = "odoo.operator.io/instance"

-- An OdooUpgrade as the operator creates it, owned by the instance.
pub record NewUpgrade : Type 0 where
  pub name : String
  pub namespace : String
  pub labels : Labels
  pub spec : OdooUpgradeSpec

-- The object of gateCreateUpgrade
unfoldable pub gate_new_upgrade : OdooInstance → UpgradeSpec → String → NewUpgrade
gate_new_upgrade inst u name = record {
  name = name;
  namespace = inst.meta.namespace;
  labels = (gate_label_instance, inst.meta.name) ∷ [];
  spec = record {
    instance_ref = record { name = inst.meta.name; namespace = "" };
    modules = u.modules;
    install_modules = [];
    database = "";
    timeout_seconds = u.timeout_seconds;
    with_demo = false;
    admin_user_password_secret = "";
  };
}

-- Create of an OdooUpgrade: one that is there already is fine.
unfoldable pub create_error : String → Option Error → Option ApiError → Option Error
create_error name (some e) answer = some e
create_error name none none = none
create_error name none (some e) =
    if is_already_exists e
    then none
    else some (wrap ("create OdooUpgrade " ⧺ quote name ⧺ ": ") (api e))

-- The answers that gateAddonsRollout gets.
pub record GateReads : Type 0 where
  pub upgrade : Reply OdooUpgrade
  pub set_owner : Option Error
  pub create : Option ApiError

-- What gateAddonsRollout did: the decision, with the status fields that it puts on the instance, or
-- the error; and the OdooUpgrade that it asked to create.
pub record GatePass : Type 0 where
  pub decision : Option GateDecision
  pub asked : Option NewUpgrade
  pub instance_after : OdooInstance
  pub error : Option Error

abbrev pub gate_stop : OdooInstance → Error → GatePass
gate_stop inst e = record { decision = none; asked = none; instance_after = inst; error = some e }

gate_input : OdooInstance → String → GateInput
unfolding gate_upgrade_name
gate_input inst current = record {
  upgrade_set = is_some inst.spec.upgrade;
  applied = inst.status.applied_addons_hash;
  current = current;
  upgrade_name = "";
  upgrade_exists = false;
  upgrade_phase = "";
}

-- gateAddonsRollout once the facts are there: the status fields of the instance.
gate_finish : OdooInstance → GateInput → String → Option NewUpgrade → GateDecision → GatePass
gate_finish inst input message asked d =
    let decision = record d {
      upgrade_message = message;
      succeeded_upgrade =
          if input.upgrade_exists && (input.upgrade_phase == upgrade_phase_succeeded)
          then input.upgrade_name
          else "";
    } in
    record {
      decision = some decision;
      asked = asked;
      instance_after = record inst {
        status = record inst.status {
          applied_addons_hash = d.applied_hash;
          active_upgrade = d.active_upgrade;
        };
      };
      error = none;
    }

gate_create :
    OdooInstance → GateInput → String → GateReads → GateDecision → Option UpgradeSpec → GatePass
unfolding gate_finish gate_new_upgrade create_error
gate_create inst input message r d none = gate_finish inst input message none d
gate_create inst input message r d (some u) =
    let new = gate_new_upgrade inst u input.upgrade_name in
    let asked = if is_some r.set_owner then none else some new in
    elim (create_error input.upgrade_name r.set_owner r.create) [
      | some e ↦ record (gate_stop inst e) { asked = asked }
      | none ↦ gate_finish inst input message asked d
    ]

gate_apply : OdooInstance → GateReads → String → GateInput → GatePass
unfolding gate_decide gate_create gate_finish
gate_apply inst r message input =
    let d = gate_decide input in
    if d.ensure_upgrade
    then gate_create inst input message r d inst.spec.upgrade
    else gate_finish inst input message none d

gate_read : OdooInstance → GateReads → GateInput → Reply OdooUpgrade → GatePass
unfolding gate_apply
gate_read inst r input (refused e) =
    if is_not_found e
    then gate_apply inst r "" input
    else gate_stop inst (wrap ("get OdooUpgrade " ⧺ quote input.upgrade_name ⧺ ": ") (api e))
gate_read inst r input (got upgrade) =
    if not (upgrade.spec.instance_ref.name == inst.meta.name)
    then gate_stop inst (
        text (
          "OdooUpgrade "
          ⧺ quote input.upgrade_name
          ⧺ " belongs to instance "
          ⧺ quote upgrade.spec.instance_ref.name
          ⧺ ", not "
          ⧺ quote inst.meta.name))
    else gate_apply inst r upgrade.status.message
        (record input { upgrade_exists = true; upgrade_phase = upgrade.status.phase })

-- gateAddonsRollout
unfoldable pub gate_addons_rollout : OdooInstance → GateReads → String → GatePass
unfolding gate_input gate_read gate_apply
gate_addons_rollout inst r current =
    let input = gate_input inst current in
    if input.upgrade_set && not (input.applied == "") && not (input.applied == current)
    then gate_read inst r (record input { upgrade_name = gate_upgrade_name inst.meta.name current })
        r.upgrade
    else gate_apply inst r "" input
