-- ===== src/Instance/Gate/Allowed.antt =====
-- What a pass of gateAddonsRollout may do (internal/controller/odooinstance_gate.go).
use odoo_k8_operator.Base.{
  String, Bool, true, false, ◌||◌, not, ◌==◌, is_some, none, some, ◌≡◌, ◌≢◌, ◌⊎◌, inl, inr, refl,
  Bool-cases,
}
use odoo_k8_operator.Kube.{ApiError, got, refused}
use odoo_k8_operator.Kube.Retry.{is_not_found}
use odoo_k8_operator.Api.{OdooUpgrade}
use odoo_k8_operator.Api.Instance.{OdooInstance, UpgradeSpec}
use odoo_k8_operator.Phases.{
  upgrade_phase_succeeded, upgrade_phase_failed, gate_phase_upgrading, gate_phase_upgrade_failed,
}
use odoo_k8_operator.Names.{gate_upgrade_name}
use odoo_k8_operator.Instance.Gate.{
  GateInput, GateDecision, GateReads, GatePass, NewUpgrade, gate_decide, gate_new_upgrade,
}

-- The OdooUpgrade that the pass read is the instance's, and it succeeded.
pub record HasSucceeded (inst : OdooInstance) (r : GateReads) : Type 0 where
  pub upgrade : OdooUpgrade
  pub was_read : r.upgrade ≡ got upgrade
  pub of_instance : (upgrade.spec.instance_ref.name == inst.meta.name) ≡ true
  pub succeeded : upgrade.status.phase ≡ upgrade_phase_succeeded

-- What a pass that asks for an OdooUpgrade read, and what it asks for.
pub record IsNeeded (inst : OdooInstance) (r : GateReads) (current : String) (new : NewUpgrade)
    : Type 0 where
  pub spec : UpgradeSpec
  pub spec_set : inst.spec.upgrade ≡ some spec
  pub error : ApiError
  pub was_read : r.upgrade ≡ refused error
  pub missing : is_not_found error ≡ true
  pub as_asked : new ≡ gate_new_upgrade inst spec (gate_upgrade_name inst.meta.name current)

-- The phases that the gate shows; "" leaves that of the Deployment.
abbrev pub is_gate_phase : String → Bool
is_gate_phase phase =
    phase == "" || phase == gate_phase_upgrading || phase == gate_phase_upgrade_failed

pub gate_decide-phase : (i : GateInput) → is_gate_phase (gate_decide i).phase ≡ true
unfolding gate_decide
gate_decide-phase i = elim (Bool-cases (not i.upgrade_set || (i.applied == ""))) [
  | inl h0 ↦ rw h0 (refl)
  | inr h0 ↦ rw h0 (elim (Bool-cases (i.current == i.applied)) [
    | inl h1 ↦ rw h1 (refl)
    | inr h1 ↦ rw h1 (elim (Bool-cases (not i.upgrade_exists)) [
      | inl h2 ↦ rw h2 (refl)
      | inr h2 ↦ rw h2 (elim (Bool-cases (i.upgrade_phase == upgrade_phase_succeeded)) [
        | inl h3 ↦ rw h3 (refl)
        | inr h3 ↦ rw h3 (elim (Bool-cases (i.upgrade_phase == upgrade_phase_failed)) [
          | inl h4 ↦ rw h4 (refl)
          | inr h4 ↦ rw h4 (refl)
        ])
      ])
    ])
  ])
]

pub record IsSafe (inst : OdooInstance) (r : GateReads) (current : String) (p : GatePass)
    : Type 0 where
  pub recorded :
      (d : GateDecision)
      → p.decision ≡ some d
      → p.instance_after.status.applied_addons_hash ≡ d.template_hash
  pub old_or_new :
      (d : GateDecision)
      → p.decision ≡ some d
      → (d.template_hash ≡ inst.status.applied_addons_hash) ⊎ (d.template_hash ≡ current)
  pub opens :
      (d : GateDecision)
      → p.decision ≡ some d
      → is_some inst.spec.upgrade ≡ true
      → (inst.status.applied_addons_hash == "") ≡ false
      → d.template_hash ≢ inst.status.applied_addons_hash
      → HasSucceeded inst r
  pub asks : (new : NewUpgrade) → p.asked ≡ some new → IsNeeded inst r current new
  pub keeps : p.decision ≡ none → p.instance_after ≡ inst
  pub phased : (d : GateDecision) → p.decision ≡ some d → is_gate_phase d.phase ≡ true

-- What gateAddonsRollout does once its facts are there.
pub record Applied (inst : OdooInstance) (r : GateReads) (i : GateInput) (p : GatePass)
    : Type 0 where
  pub decided :
      (d : GateDecision) → p.decision ≡ some d → d.template_hash ≡ (gate_decide i).template_hash
  pub stored :
      (d : GateDecision)
      → p.decision ≡ some d
      → p.instance_after.status.applied_addons_hash ≡ (gate_decide i).applied_hash
  pub asked :
      (new : NewUpgrade)
      → p.asked ≡ some new
      → ((gate_decide i).ensure_upgrade ≡ true)
        × (u : UpgradeSpec) × (inst.spec.upgrade ≡ some u)
        × (new ≡ gate_new_upgrade inst u i.upgrade_name)
  pub kept : p.decision ≡ none → p.instance_after ≡ inst
  pub of_phase : (d : GateDecision) → p.decision ≡ some d → d.phase ≡ (gate_decide i).phase
