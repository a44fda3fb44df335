-- ===== src/Conditions/Told.antt =====
-- What the main condition of an upgrade, an addon and an instance says after a status write.
use odoo_k8_operator.Base.{ℕ, String, true, List, ◌≡◌}
use odoo_k8_operator.Kube.{Condition}
use odoo_k8_operator.Kube.Meta.{ConditionSet, IsLawful}
use odoo_k8_operator.Api.{OdooUpgradeStatus, OdooAddonStatus}
use odoo_k8_operator.Api.Reasons.{type_succeeded, type_ready}
use odoo_k8_operator.Phases.{upgrade_phase_succeeded, phase_synced}
use odoo_k8_operator.Conditions.{set_conditions}
use odoo_k8_operator.Conditions.Upgrade.{upgrade_conditions}
use odoo_k8_operator.Conditions.Addon.{addon_conditions}
use odoo_k8_operator.Conditions.Instance.{InstanceCondFacts, instance_conditions}
use odoo_k8_operator.Conditions.Status.{IsTold, upgrade_conditions-IsTold, addon_conditions-IsTold}
use odoo_k8_operator.Conditions.Ready.{serves, instance_conditions-IsTold}

-- After a status write, whatever the conditions were before: an upgrade's Succeeded condition is True
-- exactly if its phase is Succeeded; an addon's Ready condition is True exactly if its phase is Synced;
-- an instance's Ready condition is True exactly if it serves: no error is reported, and the phase is
-- Running, or the Deployment has the replicas it wants in a phase that is none of Initializing,
-- InitFailed and UpgradeFailed. The list of conditions is taken to do what is documented of it.
pub set_conditions-AreTold :
    (m : ConditionSet) (gen : ℕ) (cs : List Condition) (up : OdooUpgradeStatus)
    (addon : OdooAddonStatus) (f : InstanceCondFacts) (reason msg : String)
    → IsLawful m
    → IsTold m
        (set_conditions m cs gen (upgrade_conditions up reason))
        type_succeeded
        (up.phase ≡ upgrade_phase_succeeded)
      × IsTold m
          (set_conditions m cs gen (addon_conditions addon reason msg))
          type_ready
          (addon.phase ≡ phase_synced)
      × IsTold m (set_conditions m cs gen (instance_conditions f)) type_ready (serves f ≡ true)
set_conditions-AreTold m gen cs up addon f reason msg law = (
  upgrade_conditions-IsTold m law gen cs up reason,
  addon_conditions-IsTold m law gen cs addon reason msg,
  instance_conditions-IsTold m law gen cs f,
)
