-- ===== src/Examples/Advance.antt =====
-- Two upgrades of one instance, of which the older moves on first.
use mathlib.Core.List.Memᴰ
use odoo_k8_operator.Base.{
  true, false, List, [], ◌∷◌, Memᴰ, none, ◌≡◌, ◌==◌, refl, inl, inr, arith, eq_iff,
}
use odoo_k8_operator.Kube.{got}
use odoo_k8_operator.Machinery.{TellsPhases}
use odoo_k8_operator.Api.{OdooUpgrade}
use odoo_k8_operator.Phases.{upgrade_phase_running}
use odoo_k8_operator.JobStatus.{job_succeeded}
use odoo_k8_operator.Upgrade.Reconcile.{UpgradeReads, upgrade_reconcile}
use odoo_k8_operator.Upgrade.Reconcile.Advance.{Advances, accepting}
use odoo_k8_operator.Upgrade.Progress.{IsServed, upgrade_reconcile-Progress}
use odoo_k8_operator.Examples.Samples.{
  no_logs, machinery, first_upgrade, second_upgrade, shop, succeeded_job,
}

abbrev line : List OdooUpgrade
line = second_upgrade ∷ first_upgrade ∷ []

abbrev serve : OdooUpgrade → UpgradeReads
serve up = record {
  upgrade = got up;
  backfill = accepting up;
  instance_reply = got shop;
  siblings = got line;
  pods = got [];
  set_owner = none;
  create = none;
  job = got (succeeded_job "first-run" []);
  logs = no_logs;
  writes = accepting up;
  recorder = true;
  now = 60;
}

serve-IsServed : (u : OdooUpgrade) → Memᴰ u line → IsServed line u (serve u)
unfolding job_succeeded
serve-IsServed u i = record {
  read = refl;
  listed = refl;
  inst = shop;
  there = refl;
  owned = refl;
  created = refl;
  job = succeeded_job "first-run" [];
  job_read = refl;
  finished = inl refl;
  for_backfill = u;
  backfill = refl;
  fresh = u;
  writes = refl;
  same_phase = refl;
}

none_running_yet :
    (u : OdooUpgrade)
    → Memᴰ u line
    → u.status.phase ≡ upgrade_phase_running
    → (u.status.job_name == "") ≡ false
none_running_yet u i e = elim (Memᴰ.cases_cons i) [
  | inl h ↦ ground (arith, h, eq_iff "Pending" upgrade_phase_running)
  | inr j ↦ elim (Memᴰ.cases_cons j) [
    | inl h ↦ ground (arith, h, eq_iff "" upgrade_phase_running)
    | inr none_left ↦ elim none_left [ ]
  ]
]

machinery-TellsPhases : TellsPhases machinery
machinery-TellsPhases = record { one_phase = λ a b h. cc }

upgrade_reconcile-Progress_example :
    (u : OdooUpgrade) × Memᴰ u line
    × (u.spec.instance_ref.name ≡ "shop")
    × Advances u.status.phase (upgrade_reconcile machinery (serve u))
upgrade_reconcile-Progress_example =
    upgrade_reconcile-Progress machinery "shop" line second_upgrade serve machinery-TellsPhases
      (Memᴰ.head refl) (record { of_instance = refl; phase = inl (inr refl) }) serve-IsServed
      none_running_yet
