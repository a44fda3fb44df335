-- ===== src/Instance/Init.antt =====
-- internal/controller/odooinstance_init.go: the one-time initialisation of the database.
pub mod Allowed
pub mod Laws
pub mod Start
use odoo_k8_operator.Base.{
  ℕ, ltb, String, Bool, true, false, ◌&&◌, ◌||◌, not, ◌⧺◌, ◌==◌, if◌then◌else◌, is_some, List, [],
  ◌∷◌, ◌++◌, Option, none, some, quote,
}
use odoo_k8_operator.Kube.{ApiError, Reply, got, refused}
use odoo_k8_operator.Kube.Retry.{is_not_found}
use odoo_k8_operator.Errors.{Error, text, api, wrap, reasoned}
use odoo_k8_operator.Api.{OdooUpgrade}
use odoo_k8_operator.Api.Reasons.{reason_missing_secret}
use odoo_k8_operator.Api.Instance.{OdooInstance, InitializeSpec}
use odoo_k8_operator.Phases.{
  upgrade_phase_succeeded, upgrade_phase_failed, phase_initializing, phase_init_failed,
}
use odoo_k8_operator.Names.{init_upgrade_name}
use odoo_k8_operator.Instance.Gate.{
  NewUpgrade, GateDecision, roll_to, create_error, gate_label_instance,
}

-- initInput
pub record InitInput : Type 0 where
  pub requested : Bool
  pub initialized : Bool
  pub upgrade_name : String
  pub upgrade_exists : Bool
  pub upgrade_phase : String
  pub upgrade_message : String
  pub live_replicas : ℕ

-- initDecision
pub record InitDecision : Type 0 where
  pub pending : Bool
  pub initialized : Bool
  pub ensure_upgrade : Bool
  pub upgrade_name : String
  pub phase : String
  pub fail_message : String
  pub succeeded : String
  pub adopted : Bool

abbrev no_decision : InitDecision
no_decision = record {
  pending = false;
  initialized = false;
  ensure_upgrade = false;
  upgrade_name = "";
  phase = "";
  fail_message = "";
  succeeded = "";
  adopted = false;
}

-- initDecide
unfoldable pub init_decide : InitInput → InitDecision
init_decide input =
    if not input.requested || input.initialized
    then record no_decision { initialized = input.initialized }
    else if not input.upgrade_exists && ltb 0 input.live_replicas
    then record no_decision { initialized = true; adopted = true }
    else if not input.upgrade_exists
    then record no_decision {
      pending = true;
      ensure_upgrade = true;
      upgrade_name = input.upgrade_name;
      phase = phase_initializing;
    }
    else if input.upgrade_phase == upgrade_phase_succeeded
    then record no_decision { initialized = true; succeeded = input.upgrade_name }
    else if input.upgrade_phase == upgrade_phase_failed
    then record no_decision {
      pending = true;
      upgrade_name = input.upgrade_name;
      phase = phase_init_failed;
      fail_message = input.upgrade_message;
    }
    else record no_decision {
      pending = true;
      upgrade_name = input.upgrade_name;
      phase = phase_initializing;
    }

-- initHoldGate
unfoldable pub init_hold_gate : OdooInstance → String → OdooInstance × GateDecision
init_hold_gate inst current = (
  record inst {
    status = record inst.status { active_upgrade = ""; applied_addons_hash = current };
  },
  roll_to current,
)

-- The object of createInitUpgrade
unfoldable pub init_new_upgrade : OdooInstance → InitializeSpec → String → NewUpgrade
init_new_upgrade inst spec name = record {
  name = name;
  namespace = inst.meta.namespace;
  labels = (gate_label_instance, inst.meta.name) ∷ [];
  spec = record {
    instance_ref = record { name = inst.meta.name; namespace = "" };
    modules = [];
    install_modules = spec.modules;
    database = "";
    timeout_seconds = spec.timeout_seconds;
    with_demo = spec.with_demo;
    admin_user_password_secret = spec.admin_user_password_secret;
  };
}

-- The answers that decideInitialization gets.
pub record InitReads : Type 0 where
  -- The ready replicas of the Deployment
  pub deployment : Reply ℕ
  pub upgrade : Reply OdooUpgrade
  pub secret : Option ApiError
  pub set_owner : Option Error
  pub create : Option ApiError

-- What decideInitialization did: its decision or its error, and the OdooUpgrade that it asked to
-- create.
pub record InitPass : Type 0 where
  pub decision : Option InitDecision
  pub asked : Option NewUpgrade
  pub error : Option Error

abbrev pub init_stop : Error → InitPass
init_stop e = record { decision = none; asked = none; error = some e }

-- checkInitSecret
unfoldable pub check_init_secret : OdooInstance → InitializeSpec → Option ApiError → Option Error
check_init_secret inst spec none = none
check_init_secret inst spec (some e) =
    if is_not_found e
    then some (
        reasoned reason_missing_secret (
          text (
            "secret "
            ⧺ quote spec.admin_user_password_secret
            ⧺ " referenced by spec.initialize.adminUserPasswordSecret does not exist in namespace "
            ⧺ quote inst.meta.namespace)))
    else some (wrap ("get secret " ⧺ quote spec.admin_user_password_secret ⧺ ": ") (api e))

init_create : OdooInstance → InitReads → InitDecision → InitializeSpec → InitPass
unfolding check_init_secret create_error init_new_upgrade
init_create inst r d spec = elim (check_init_secret inst spec r.secret) [
  | some e ↦ init_stop e
  | none ↦
      let asked =
        if is_some r.set_owner then none else some (init_new_upgrade inst spec d.upgrade_name) in
      elim (create_error d.upgrade_name r.set_owner r.create) [
        | some e ↦ record (init_stop e) { asked = asked }
        | none ↦ record { decision = some d; asked = asked; error = none }
      ]
]

init_ensure : OdooInstance → InitReads → InitDecision → Option InitializeSpec → InitPass
unfolding init_create
init_ensure inst r d none = record { decision = some d; asked = none; error = none }
init_ensure inst r d (some spec) =
    if d.ensure_upgrade
    then init_create inst r d spec
    else record { decision = some d; asked = none; error = none }

init_apply : OdooInstance → InitReads → InitInput → InitPass
unfolding init_decide init_ensure
init_apply inst r input = init_ensure inst r (init_decide input) inst.spec.initialize

-- readInitState after the Deployment
init_read_upgrade : OdooInstance → InitReads → InitInput → Reply OdooUpgrade → InitPass
unfolding init_apply
init_read_upgrade inst r input (refused e) =
    if is_not_found e
    then init_apply inst r input
    else init_stop (wrap ("get OdooUpgrade " ⧺ quote input.upgrade_name ⧺ ": ") (api e))
init_read_upgrade inst r input (got upgrade) =
    if not (upgrade.spec.instance_ref.name == inst.meta.name)
    then init_stop (
        text (
          "OdooUpgrade "
          ⧺ quote input.upgrade_name
          ⧺ " belongs to instance "
          ⧺ quote upgrade.spec.instance_ref.name
          ⧺ ", not "
          ⧺ quote inst.meta.name))
    else init_apply inst r (record input {
      upgrade_exists = true;
      upgrade_phase = upgrade.status.phase;
      upgrade_message = upgrade.status.message;
    })

-- readInitState
init_read : OdooInstance → InitReads → InitInput → Reply ℕ → InitPass
unfolding init_read_upgrade
init_read inst r input (got live) =
    init_read_upgrade inst r (record input { live_replicas = live }) r.upgrade
init_read inst r input (refused e) =
    if is_not_found e
    then init_read_upgrade inst r input r.upgrade
    else init_stop (wrap ("get Deployment " ⧺ quote inst.meta.name ⧺ ": ") (api e))

init_input : OdooInstance → InitInput
unfolding init_upgrade_name
init_input inst = record {
  requested = is_some inst.spec.initialize;
  initialized = inst.status.initialized;
  upgrade_name = init_upgrade_name inst.meta.name;
  upgrade_exists = false;
  upgrade_phase = "";
  upgrade_message = "";
  live_replicas = 0;
}

-- decideInitialization
unfoldable pub decide_initialization : OdooInstance → InitReads → InitPass
unfolding init_input init_read init_apply
decide_initialization inst r =
    let input = init_input inst in
    if input.requested && not input.initialized
    then init_read inst r input r.deployment
    else init_apply inst r input
