-- ===== src/Instance/Gate/Laws.antt =====
-- What the rollout gate lets through.
use odoo_k8_operator.Base.{true, false, ◌==◌, ◌≡◌, ◌≢◌, ◌⊎◌, arith, eq_iff}
use odoo_k8_operator.Phases.{upgrade_phase_succeeded}
use odoo_k8_operator.Instance.Gate.{GateInput, GateDecision, gate_decide}

-- The facts under which the decision lets a new revision through.
pub record Opens (i : GateInput) : Type 0 where
  pub exists : i.upgrade_exists ≡ true
  pub succeeded : i.upgrade_phase ≡ upgrade_phase_succeeded

-- The gate is on: there is an applied revision and upgrades are asked for.
pub record IsGated (i : GateInput) : Type 0 where
  pub set : i.upgrade_set ≡ true
  pub applied : (i.applied == "") ≡ false

-- The pods run either revision and the recorded one is the one that they run; they run a new one,
-- where the gate is on, exactly if the upgrade to it succeeded; and an upgrade is asked for exactly
-- where the gate is on, the revision is new and there is none.
pub record IsRollout (i : GateInput) (d : GateDecision) : Type 0 where
  pub recorded : d.applied_hash ≡ d.template_hash
  pub old_or_new : (d.template_hash ≡ i.applied) ⊎ (d.template_hash ≡ i.current)
  pub opens : IsGated i → i.current ≢ i.applied → d.template_hash ≡ i.current → Opens i
  pub opened : Opens i → d.template_hash ≡ i.current
  pub ensures :
      d.ensure_upgrade ≡ true
      → IsGated i
        × (i.current ≢ i.applied)
        × (i.upgrade_exists ≡ false)
        × (d.template_hash ≡ i.applied)

pub gate_decide-IsRollout : (i : GateInput) → IsRollout i (gate_decide i)
unfolding gate_decide
gate_decide-IsRollout i = record {
  recorded = ground arith;
  old_or_new = ground (arith, eq_iff i.current i.applied);
  opens = λ g ne e. record {
    exists = ground (arith, g.set, g.applied, eq_iff i.current i.applied);
    succeeded = ground (
      arith,
      g.set,
      g.applied,
      eq_iff i.current i.applied,
      eq_iff i.upgrade_phase upgrade_phase_succeeded,
    );
  };
  opened = λ o. ground (
    arith,
    o.exists,
    o.succeeded,
    eq_iff i.current i.applied,
    eq_iff i.upgrade_phase upgrade_phase_succeeded,
  );
  ensures = λ e. (
    record { set = ground arith; applied = ground arith },
    (λ same. ground (arith, eq_iff i.current i.applied)),
    ground arith,
    ground arith,
  );
}
