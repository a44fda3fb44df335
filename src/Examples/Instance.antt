-- ===== src/Examples/Instance.antt =====
-- An instance whose addons changed, and one whose database is not initialised.
use odoo_k8_operator.Base.{none}
use odoo_k8_operator.Kube.{got, refused, not_found}
use odoo_k8_operator.Instance.Gate.{GateReads, gate_addons_rollout}
use odoo_k8_operator.Instance.Gate.Allowed.{IsSafe as IsSafeRollout}
use odoo_k8_operator.Instance.Gate.Rollout.{gate_addons_rollout-IsSafe}
use odoo_k8_operator.Instance.Init.{InitReads, decide_initialization}
use odoo_k8_operator.Instance.Init.Allowed.{IsSafe as IsSafeStart}
use odoo_k8_operator.Instance.Init.Start.{decide_initialization-IsSafe}
use odoo_k8_operator.Examples.Samples.{shop}

abbrev gate_reads : GateReads
gate_reads = record { upgrade = refused (not_found ""); set_owner = none; create = none }

gate_addons_rollout-IsSafe_example :
    IsSafeRollout shop gate_reads "1111bbbb2222"
      (gate_addons_rollout shop gate_reads "1111bbbb2222")
gate_addons_rollout-IsSafe_example = gate_addons_rollout-IsSafe shop gate_reads "1111bbbb2222"

abbrev init_reads : InitReads
init_reads = record {
  deployment = got 0;
  upgrade = refused (not_found "");
  secret = none;
  set_owner = none;
  create = none;
}

decide_initialization-IsSafe_example :
    IsSafeStart shop init_reads (decide_initialization shop init_reads)
decide_initialization-IsSafe_example = decide_initialization-IsSafe shop init_reads
