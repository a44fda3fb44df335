-- ===== src/Upgrade/Progress.antt =====
-- The upgrades of one instance under the reconciler: a pass of one of them always moves that one on
-- (upgradeDecideStart of internal/controller/odooupgrade_queue.go with Reconcile of
-- odooupgrade_controller.go).
use odoo_k8_operator.Base.{
  String, Bool, true, false, ◌&&◌, not, ◌==◌, List, Memᴰ, found_or_none, none, some, ◌≡◌, ◌≢◌, refl,
  ap, ◌∙◌, sym, ◌⊎◌, inl, inr, arith, eq_iff, subst,
}
use odoo_k8_operator.Kube.{got}
use odoo_k8_operator.Kube.Batch.{Job}
use odoo_k8_operator.Machinery.{Machinery, TellsPhases}
use odoo_k8_operator.Api.{OdooUpgrade}
use odoo_k8_operator.Api.Instance.{OdooInstance}
use odoo_k8_operator.Phases.{upgrade_phase_running}
use odoo_k8_operator.JobStatus.{job_succeeded, upgrade_job_failure}
use odoo_k8_operator.Queue.{upgrade_decide_start, upgrade_queued, phase_pending, phase_running}
use odoo_k8_operator.Queue.Exclusion.{Waits, front_may_start}
use odoo_k8_operator.Upgrade.{upgrade_validate_spec}
use odoo_k8_operator.Upgrade.Status.{upgrade_phase_terminal}
use odoo_k8_operator.Upgrade.Reconcile.{
  UpgradeReads, upgrade_reconcile, upgrade_dispatch, upgrade_monitor, spec_pass,
}
use odoo_k8_operator.Upgrade.Reconcile.Advance.{
  Advances, accepting, judge-Advances, spec_pass-Advances, reconcile_got-Advances,
}

-- A pass over `up` for which the API server holds `all` and the instance, and takes every write. The
-- Job, which is read where one was started, has finished.
pub record IsServed (all : List OdooUpgrade) (up : OdooUpgrade) (r : UpgradeReads) : Type 0 where
  pub read : r.upgrade ≡ got up
  pub listed : r.siblings ≡ got all
  pub inst : OdooInstance
  pub there : r.instance_reply ≡ got inst
  pub owned : r.set_owner ≡ none
  pub created : r.create ≡ none
  pub job : Job
  pub job_read : r.job ≡ got job
  pub finished :
      (job_succeeded job ≡ true) ⊎ ((reason : String) × (upgrade_job_failure job ≡ some reason))
  -- The objects that the two status writes read afresh; the phase is still that of `up`.
  pub for_backfill : OdooUpgrade
  pub backfill : r.backfill ≡ accepting for_backfill
  pub fresh : OdooUpgrade
  pub writes : r.writes ≡ accepting fresh
  pub same_phase : fresh.status.phase ≡ up.status.phase

dispatch-running :
    (k : Machinery) (r : UpgradeReads) (up : OdooUpgrade)
    → up.status.phase ≡ upgrade_phase_running
    → (up.status.job_name == "") ≡ false
    → upgrade_dispatch k r up ≡ upgrade_monitor k r up r.job
unfolding upgrade_dispatch upgrade_phase_terminal
dispatch-running k r up running started =
    let open_ : upgrade_phase_terminal up.status.phase ≡ false =
      ap upgrade_phase_terminal running in
    let test : (up.status.phase == upgrade_phase_running && not (up.status.job_name == "")) ≡ true =
      ground (arith, ap (λ p. p == upgrade_phase_running) running) in
    rw open_ (rw test refl)

dispatch-waiting :
    (k : Machinery) (r : UpgradeReads) (up : OdooUpgrade)
    → (upgrade_phase_terminal up.status.phase ≡ false)
    → ((up.status.phase == upgrade_phase_running) ≡ false)
    → upgrade_dispatch k r up ≡ spec_pass k r up (upgrade_validate_spec up)
unfolding upgrade_dispatch upgrade_phase_terminal
dispatch-waiting k r up open_ waiting = rw open_ (rw waiting refl)

waiting-open :
    (phase : String)
    → (phase ≡ "") ⊎ (phase ≡ phase_pending)
    → (upgrade_phase_terminal phase ≡ false) × ((phase == upgrade_phase_running) ≡ false)
unfolding upgrade_phase_terminal
waiting-open phase (inl e) = (ap upgrade_phase_terminal e, ap (λ p. p == upgrade_phase_running) e)
waiting-open phase (inr e) = (ap upgrade_phase_terminal e, ap (λ p. p == upgrade_phase_running) e)

module _ (k : Machinery) (law : TellsPhases k) (all : List OdooUpgrade) (up : OdooUpgrade)
    (r : UpgradeReads) (s : IsServed all up r) where
  -- The phase of the copy that is written is that of the copy that the pass started from.
  dispatched :
      Advances s.fresh.status.phase (upgrade_dispatch k r up)
      → Advances up.status.phase (upgrade_reconcile k r)
  dispatched a =
      reconcile_got-Advances k law r up s.for_backfill up.status.phase s.read s.backfill
        (subst (λ p. Advances p (upgrade_dispatch k r up)) s.same_phase a)

  running-Advances :
      up.status.phase ≡ upgrade_phase_running
      → (up.status.job_name == "") ≡ false
      → Advances up.status.phase (upgrade_reconcile k r)
  unfolding upgrade_phase_terminal upgrade_monitor
  running-Advances running started =
      let unfinished = ap upgrade_phase_terminal (s.same_phase ∙ running) in
      let monitored : Advances s.fresh.status.phase (upgrade_monitor k r up r.job) =
        subst (λ j. Advances s.fresh.status.phase (upgrade_monitor k r up j)) (sym s.job_read)
          (judge-Advances k law r s.fresh s.writes unfinished s.job s.finished) in
      dispatched (
        subst (λ p. Advances s.fresh.status.phase p) (sym (dispatch-running k r up running started))
          monitored)

  waiting-Advances :
      (up.status.phase ≡ "") ⊎ (up.status.phase ≡ phase_pending)
      → (upgrade_decide_start up all).may_start ≡ true
      → Advances up.status.phase (upgrade_reconcile k r)
  waiting-Advances waiting may =
      let (open_, idle) = waiting-open up.status.phase waiting in
      dispatched (
        subst (λ p. Advances s.fresh.status.phase p) (sym (dispatch-waiting k r up open_ idle))
          (spec_pass-Advances k law r s.fresh s.writes
            (ap upgrade_phase_terminal s.same_phase ∙ open_) up (upgrade_validate_spec up) s.inst
            all s.there s.listed may s.owned s.created
            (ap (λ p. p == upgrade_phase_running) s.same_phase ∙ idle)))

-- An upgrade of the instance that has not finished: it waits, or it runs.
pub record IsOpen (instance_name : String) (u : OdooUpgrade) : Type 0 where
  pub of_instance : u.spec.instance_ref.name ≡ instance_name
  pub phase :
      ((u.status.phase ≡ "") ⊎ (u.status.phase ≡ phase_pending))
      ⊎ (u.status.phase ≡ upgrade_phase_running)

abbrev runs_at : String → OdooUpgrade → Bool
runs_at n u = (u.spec.instance_ref.name == n) && (u.status.phase == upgrade_phase_running)

runs_at-equal :
    (n : String) (u : OdooUpgrade)
    → runs_at n u ≡ true
    → (u.spec.instance_ref.name ≡ n) × (u.status.phase ≡ upgrade_phase_running)
runs_at-equal n u h = (
  (eq_iff u.spec.instance_ref.name n).0 (ground arith),
  (eq_iff u.status.phase upgrade_phase_running).0 (ground arith),
)

runs_at-idle :
    (n : String) (u : OdooUpgrade)
    → runs_at n u ≡ false
    → u.spec.instance_ref.name ≡ n
    → u.status.phase ≢ phase_running
runs_at-idle n u h e running =
    ground (arith, eq_iff u.spec.instance_ref.name n, eq_iff u.status.phase upgrade_phase_running)

IsOpen-Waits :
    (n : String) (u : OdooUpgrade) → IsOpen n u → u.status.phase ≢ phase_running → Waits n u
IsOpen-Waits n u o idle = record {
  of_instance = o.of_instance;
  takes_part = refl;
  waiting = elim o.phase [ inl w ↦ w | inr e ↦ absurd (idle e) ];
}

-- As long as an upgrade of an instance has not finished, the pass of some upgrade of that instance
-- moves it on, from waiting to Running or from there, or at once, to Succeeded or Failed, and gets no
-- error. The API server is taken to hold the listed upgrades and the instance and to take every write;
-- those that are Running to have a Job name and their Jobs to have finished; and statuses that
-- count as equal to be in one phase.
pub upgrade_reconcile-Progress :
    (k : Machinery) (n : String) (all : List OdooUpgrade) (a : OdooUpgrade)
    (serve : OdooUpgrade → UpgradeReads)
    → TellsPhases k
    → Memᴰ a all
    → IsOpen n a
    → ((u : OdooUpgrade) → Memᴰ u all → IsServed all u (serve u))
    → ((u : OdooUpgrade)
        → Memᴰ u all
        → u.status.phase ≡ upgrade_phase_running
        → (u.status.job_name == "") ≡ false)
    → (u : OdooUpgrade) × Memᴰ u all
      × (u.spec.instance_ref.name ≡ n)
      × Advances u.status.phase (upgrade_reconcile k (serve u))
unfolding upgrade_decide_start
upgrade_reconcile-Progress k n all a serve law i o served started =
    elim (found_or_none (runs_at n) all) [
      | inl (u, iu, h) ↦
          let (at, running) = runs_at-equal n u h in
          (
            u,
            iu,
            at,
            running-Advances k law all u (serve u) (served u iu) running (started u iu running),
          )
      | inr none_runs ↦
          let idle = λ (u : OdooUpgrade) (iu : Memᴰ u all). runs_at-idle n u (none_runs u iu) in
          let (u, iu, w, may) =
            front_may_start n all a i (IsOpen-Waits n a o (idle a i o.of_instance)) idle in
          (u, iu, w.of_instance, waiting-Advances k law all u (serve u) (served u iu) w.waiting may)
    ]
