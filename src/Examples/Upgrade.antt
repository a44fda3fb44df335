-- ===== src/Examples/Upgrade.antt =====
-- Two passes over an upgrade: one that starts its Job, and one that sees the Job succeed.
use mathlib.Core.List.Memᴰ
use odoo_k8_operator.Base.{◌≤◌, true, List, [], ◌∷◌, Option, none, some, ◌≡◌, refl, ap, inl, inr}
use odoo_k8_operator.Kube.{got, refused, not_found}
use odoo_k8_operator.Kube.Retry.{Exchange}
use odoo_k8_operator.Api.{OdooUpgrade}
use odoo_k8_operator.JobStatus.{job_succeeded}
use odoo_k8_operator.Upgrade.Status.{
  upgrade_backfill_decision, upgrade_write_decision, upgrade_next_status, upgrade_phase_terminal,
}
use odoo_k8_operator.Upgrade.Reconcile.{UpgradeReads, upgrade_reconcile}
use odoo_k8_operator.Upgrade.Reconcile.Laws.{rank, Wrote, Backfilled}
use odoo_k8_operator.Upgrade.Reconcile.Sound.{upgrade_reconcile-Wrote, upgrade_reconcile-Backfilled}
use odoo_k8_operator.Upgrade.Reconcile.Causes.{IsCaused, upgrade_reconcile-IsCaused}
use odoo_k8_operator.Upgrade.Lifecycle.{
  IsOptimistic, status_write, edit, Reach, here, next, rank-Reach, terminal-Reach,
}
use odoo_k8_operator.Examples.Samples.{
  machinery, no_logs, first_upgrade, second_upgrade, running_upgrade, shop, succeeded_job,
}

-- One update of the version that was read, accepted.
abbrev accepted : OdooUpgrade → List (Exchange OdooUpgrade)
accepted up = record { read = got up; update = none } ∷ []

abbrev start_reads : UpgradeReads
start_reads = record {
  upgrade = got first_upgrade;
  backfill = [];
  instance_reply = got shop;
  siblings = got (first_upgrade ∷ second_upgrade ∷ []);
  pods = got [];
  set_owner = none;
  create = none;
  job = refused (not_found "");
  logs = no_logs;
  writes = accepted first_upgrade;
  recorder = true;
  now = 60;
}

abbrev finish_reads : UpgradeReads
finish_reads = record start_reads {
  upgrade = got running_upgrade;
  backfill = accepted running_upgrade;
  job = got (succeeded_job "first-run" []);
  writes = accepted running_upgrade;
  now = 100;
}

-- The object that a write left, or else the one before.
abbrev left : OdooUpgrade → Option (OdooUpgrade × OdooUpgrade) → OdooUpgrade
left before none = before
left before (some (cur, new)) = new

abbrev finished : OdooUpgrade
finished = left running_upgrade (upgrade_reconcile machinery finish_reads).written

abbrev backfilled : OdooUpgrade
backfilled = left running_upgrade (upgrade_reconcile machinery finish_reads).backfilled

finish_written :
    (upgrade_reconcile machinery finish_reads).written ≡ some (running_upgrade, finished)
unfolding upgrade_reconcile upgrade_backfill_decision job_succeeded upgrade_write_decision
finish_written = refl

finish_backfilled :
    (upgrade_reconcile machinery finish_reads).backfilled ≡ some (running_upgrade, backfilled)
unfolding upgrade_reconcile upgrade_backfill_decision job_succeeded upgrade_write_decision
finish_backfilled = refl

finished_phase : finished.status.phase ≡ "Succeeded"
unfolding upgrade_reconcile upgrade_backfill_decision job_succeeded upgrade_write_decision
    upgrade_next_status
finished_phase = refl

upgrade_reconcile-IsCaused_example : IsCaused start_reads (upgrade_reconcile machinery start_reads)
upgrade_reconcile-IsCaused_example = upgrade_reconcile-IsCaused machinery start_reads

upgrade_reconcile-Wrote_example : Wrote (accepted running_upgrade) running_upgrade finished
upgrade_reconcile-Wrote_example =
    upgrade_reconcile-Wrote machinery finish_reads running_upgrade finished finish_written

upgrade_reconcile-Backfilled_example :
    Backfilled (accepted running_upgrade) running_upgrade backfilled
upgrade_reconcile-Backfilled_example =
    upgrade_reconcile-Backfilled machinery finish_reads running_upgrade backfilled finish_backfilled

accepted-IsOptimistic : (up : OdooUpgrade) → IsOptimistic up (accepted up)
accepted-IsOptimistic up x i h = elim (Memᴰ.cases_cons i) [
  | inl e ↦ ap (λ (y : Exchange OdooUpgrade). y.read) e
  | inr below ↦ elim below [ ]
]

finishing : Reach machinery running_upgrade finished
finishing = next here (
    status_write finish_reads running_upgrade (accepted-IsOptimistic running_upgrade)
      finish_written)

-- A user asks a finished upgrade for other modules.
abbrev edited : OdooUpgrade
edited = record finished { spec = record finished.spec { modules = "all" ∷ [] } }

editing : Reach machinery finished edited
editing = next here (edit finished.meta (record finished.spec { modules = "all" ∷ [] }) refl)

rank-Reach_example : rank running_upgrade.status.phase ≤ rank finished.status.phase
rank-Reach_example = rank-Reach machinery running_upgrade finished finishing

finished_terminal : upgrade_phase_terminal finished.status.phase ≡ true
unfolding upgrade_phase_terminal
finished_terminal = ap upgrade_phase_terminal finished_phase

terminal-Reach_example : edited.status.phase ≡ finished.status.phase
terminal-Reach_example = terminal-Reach machinery finished edited editing finished_terminal
