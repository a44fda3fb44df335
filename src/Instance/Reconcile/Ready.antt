-- ===== src/Instance/Reconcile/Ready.antt =====
-- The Ready field that a pass stores says what the Ready condition says.
use odoo_k8_operator.Base.{
  ℤ, ◌≤ℤ◌, String, Bool, true, false, ◌&&◌, ◌||◌, not, ◌==◌, if◌then◌else◌, List, ◌≡◌, refl, ◌∙◌,
  ap, subst, sym, inl, inr, eq_iff, Bool-cases, arith,
}
use odoo_k8_operator.Kube.{Condition, Reply, got, refused}
use odoo_k8_operator.Kube.Meta.{ConditionSet, IsLawful}
use odoo_k8_operator.Errors.{Error, error_text}
use odoo_k8_operator.Api.Reasons.{type_ready}
use odoo_k8_operator.Api.Instance.{OdooInstance, OdooInstanceSpec, OdooInstanceStatus}
use odoo_k8_operator.Phases.{
  phase_running, phase_creating, phase_initializing, phase_init_failed, gate_phase_upgrading,
  gate_phase_upgrade_failed,
}
use odoo_k8_operator.Conditions.Status.{IsTold}
use odoo_k8_operator.Conditions.Ready.{serves, instance_conditions-IsTold}
use odoo_k8_operator.Instance.Gate.Allowed.{is_gate_phase}
use odoo_k8_operator.Instance.Init.Allowed.{is_init_phase}
use odoo_k8_operator.Instance.Workload.{desired_replicas}
use odoo_k8_operator.Instance.Pass.{InstanceReads, InstanceTools}
use odoo_k8_operator.Instance.Parts.{
  Findings, has_enough, is_found, ready_replicas, final_phase, final_ready, cond_facts,
}
use odoo_k8_operator.Instance.Reconcile.{final_status, failing_status, failing_facts}

is_stopped : String → Bool
is_stopped p = p == phase_initializing || (p == phase_init_failed || p == gate_phase_upgrade_failed)

-- The phase that is shown, from whether the Deployment has its replicas.
shown_phase : Bool → Bool → String → String → String
shown_phase enough pending init gate =
    if pending
    then init
    else if not (gate == "")
    then gate
    else if enough
    then phase_running
    else phase_creating

shown_phase-serves :
    (enough pending : Bool) (init gate : String)
    → (pending ≡ true → is_init_phase init ≡ true)
    → is_gate_phase gate ≡ true
    → ((shown_phase enough pending init gate == phase_running)
        || (enough && not (is_stopped (shown_phase enough pending init gate))))
      ≡ (if pending then false else if gate == gate_phase_upgrade_failed then false else enough)
unfolding shown_phase is_stopped
shown_phase-serves enough true init gate h k = elim (Bool-cases (init == phase_initializing)) [
  | inl e ↦ rw ((eq_iff init phase_initializing).0 e) (ground arith)
  | inr e ↦ rw ((eq_iff init phase_init_failed).0 (ground (arith, h refl))) (ground arith)
]
shown_phase-serves enough false init gate h k = elim (Bool-cases (gate == "")) [
  | inl e ↦
      rw ((eq_iff gate "").0 e) (elim (Bool-cases enough) [ inl b ↦ rw b refl | inr b ↦ rw b refl ])
  | inr e ↦ elim (Bool-cases (gate == gate_phase_upgrading)) [
    | inl f ↦ rw ((eq_iff gate gate_phase_upgrading).0 f) (ground arith)
    | inr f ↦ rw ((eq_iff gate gate_phase_upgrade_failed).0 (ground arith)) (ground arith)
  ]
]

found-has_enough :
    (inst : OdooInstance) (d : Reply ℤ)
    → (is_found d && (desired_replicas inst.spec ≤ℤ ready_replicas d)) ≡ has_enough inst d
unfolding has_enough
found-has_enough inst (got n) = refl
found-has_enough inst (refused e) = refl

-- What the conditions are computed from agrees with the field.
serves-final_ready :
    (inst : OdooInstance) (f : Findings)
    → (f.init.pending ≡ true → is_init_phase f.init.phase ≡ true)
    → is_gate_phase f.gate.phase ≡ true
    → serves (cond_facts inst f) ≡ final_ready inst f
unfolding serves cond_facts final_ready final_phase shown_phase is_stopped
serves-final_ready inst f h k =
    let enough = has_enough inst f.deployment in
    let shown = shown_phase enough f.init.pending f.init.phase f.gate.phase in
    ap (λ b. shown == phase_running || (b && not (is_stopped shown)))
      (found-has_enough inst f.deployment)
    ∙ shown_phase-serves enough f.init.pending f.init.phase f.gate.phase h k

enough-got :
    (inst : OdooInstance) (d : Reply ℤ)
    → has_enough inst d ≡ true
    → (n : ℤ) × (d ≡ got n) × ((desired_replicas inst.spec ≤ℤ n) ≡ true)
unfolding has_enough
enough-got inst (got n) h = (n, refl, h)
enough-got inst (refused e) h = cc

ready-enough :
    (inst : OdooInstance) (f : Findings)
    → final_ready inst f ≡ true
    → has_enough inst f.deployment ≡ true
unfolding final_ready
ready-enough inst f h = ground (arith, h)

-- A stored status is Ready only with the replicas that are wanted, and its Ready condition is True
-- exactly then.
pub record IsStatus (t : InstanceTools) (r : InstanceReads) (spec : OdooInstanceSpec)
    (st : OdooInstanceStatus) : Type 0 where
  pub told : IsTold t.machinery.conditions st.conditions type_ready (st.ready ≡ true)
  pub backed :
      st.ready ≡ true → (n : ℤ) × (r.deployment ≡ got n) × ((desired_replicas spec ≤ℤ n) ≡ true)

IsTold_of :
    (m : ConditionSet) (cs : List Condition) (s b : Bool)
    → s ≡ b
    → IsTold m cs type_ready (s ≡ true)
    → IsTold m cs type_ready (b ≡ true)
IsTold_of m cs s b e x = subst (λ c. IsTold m cs type_ready (c ≡ true)) e x

failing-serves : (e : Error) → serves (failing_facts e) ≡ false
unfolding serves failing_facts
failing-serves e = elim (Bool-cases (error_text e == "")) [ inl h ↦ rw h refl | inr h ↦ rw h refl ]

module _ (t : InstanceTools) (law : IsLawful t.machinery.conditions) (r : InstanceReads)
    (inst : OdooInstance) where
  pub final_status-IsStatus :
      (f : Findings)
      → f.deployment ≡ r.deployment
      → (f.init.pending ≡ true → is_init_phase f.init.phase ≡ true)
      → is_gate_phase f.gate.phase ≡ true
      → IsStatus t r inst.spec (final_status t r inst f)
  unfolding final_status
  final_status-IsStatus f seen h k = record {
    told =
        IsTold_of t.machinery.conditions _ (serves (cond_facts inst f)) (final_ready inst f)
          (serves-final_ready inst f h k)
          (instance_conditions-IsTold t.machinery.conditions law inst.meta.generation _
            (cond_facts inst f));
    backed = λ e.
        let (n, at, enough) = enough-got inst f.deployment (ready-enough inst f e) in
        (n, sym seen ∙ at, enough);
  }

  pub failing_status-IsStatus :
      (spec : OdooInstanceSpec) (e : Error) → IsStatus t r spec (failing_status t r inst e)
  unfolding failing_status
  failing_status-IsStatus spec e = record {
    told = IsTold_of t.machinery.conditions _ (serves (failing_facts e)) false (failing-serves e) (
        instance_conditions-IsTold t.machinery.conditions law inst.meta.generation _
          (failing_facts e));
    backed = λ h. cc;
  }
