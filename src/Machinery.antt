-- ===== src/Machinery.antt =====
-- The functions of other packages that the reconcilers call and that are not in the repository, as
-- one record of parameters, and what their documentation says of them.
use odoo_k8_operator.Base.{Bool, true, ◌≡◌}
use odoo_k8_operator.Kube.{ApiError}
use odoo_k8_operator.Kube.Meta.{ConditionSet}
use odoo_k8_operator.Api.{OdooAddonStatus, OdooUpgradeStatus, OdooBackupStatus}

pub record Machinery : Type 0 where
  -- k8s.io/apimachinery/pkg/api/meta
  pub conditions : ConditionSet
  -- k8s.io/client-go/util/retry: RetryOnConflict runs its function again after this error
  pub again : ApiError → Bool
  -- equality.Semantic.DeepEqual at the three kinds of status
  pub addon_status_equal : OdooAddonStatus → OdooAddonStatus → Bool
  pub upgrade_status_equal : OdooUpgradeStatus → OdooUpgradeStatus → Bool
  pub backup_status_equal : OdooBackupStatus → OdooBackupStatus → Bool

-- What is documented of DeepEqual, as far as it is used: statuses that count as equal have equal fields,
-- so they are in one phase.
pub record TellsPhases (k : Machinery) : Type 0 where
  pub one_phase : (a b : OdooUpgradeStatus) → k.upgrade_status_equal a b ≡ true → a.phase ≡ b.phase
