-- ===== src/Upgrade/Reconcile/Advance.antt =====
-- A pass over an OdooUpgrade that the API server answers moves the upgrade on: Reconcile, upgradeStart
-- and upgradeMonitor of internal/controller/odooupgrade_controller.go.
use odoo_k8_operator.Base.{
  ℕ, ◌<◌, String, true, false, ◌&&◌, not, ◌==◌, List, [], ◌∷◌, Option, none, some, ◌≡◌, ◌≢◌, refl,
  ap, ◌∙◌, sym, ◌⊎◌, inl, inr, arith, Bool-cases, Option-cases, subst, ltb, length,
}
use odoo_k8_operator.Kube.{got}
use odoo_k8_operator.Kube.Batch.{Job, NewJob}
use odoo_k8_operator.Kube.Retry.{Exchange, Write, submit, settle, write_retrying}
use odoo_k8_operator.Errors.{Error, error_text}
use odoo_k8_operator.Machinery.{Machinery, TellsPhases}
use odoo_k8_operator.Api.{OdooUpgrade, OdooUpgradeStatus}
use odoo_k8_operator.Api.Instance.{OdooInstance}
use odoo_k8_operator.Api.Reasons.{reason_invalid_spec, reason_running}
use odoo_k8_operator.Upgrade.{upgrade_database}
use odoo_k8_operator.Phases.{
  upgrade_phase_pending, upgrade_phase_running, upgrade_phase_succeeded, upgrade_phase_failed,
}
use odoo_k8_operator.JobStatus.{job_succeeded, upgrade_job_failure}
use odoo_k8_operator.Queue.{upgrade_decide_start}
use odoo_k8_operator.Upgrade.Status.{
  Mutate, upgrade_phase_terminal, upgrade_next_status, upgrade_write_decision, upgrade_write_status,
  upgrade_backfill_conditions, upgrade_backfill_decision,
}
use odoo_k8_operator.Upgrade.Reconcile.{
  UpgradeReads, UpgradePass, write_pass, fail_pass, fail_done_pass, running_status, created_pass,
  create_pass, upgrade_start, judge, queue_pass, instance_pass, spec_pass, upgrade_requeue_running,
  upgrade_dispatch, after_backfill, reconcile_got, upgrade_reconcile,
}
use odoo_k8_operator.Upgrade.Reconcile.Laws.{rank}

-- One exchange in which the server holds the object and takes the update.
abbrev pub accepting : OdooUpgrade → List (Exchange OdooUpgrade)
accepting cur = record { read = got cur; update = none } ∷ []

-- The pass stored a status in a phase beyond this one.
pub record Advances (phase : String) (p : UpgradePass) : Type 0 where
  pub old : OdooUpgrade
  pub new : OdooUpgrade
  pub written : p.written ≡ some (old, new)
  pub further : rank phase < rank new.status.phase
  pub no_error : p.error ≡ none

module _ (k : Machinery) (law : TellsPhases k) where
  -- A status in another phase is another status, which is stored.
  decision-stores :
      (target reason : String) (mutate : Mutate) (cur : OdooUpgrade)
      → (mutate cur.status).phase ≡ target
      → upgrade_phase_terminal cur.status.phase ≡ false
      → (target == upgrade_phase_pending) ≡ false
      → cur.status.phase ≢ target
      → upgrade_write_decision k target reason mutate cur
        ≡ some (record cur { status = upgrade_next_status k reason mutate cur })
  unfolding upgrade_write_decision upgrade_next_status
  decision-stores target reason mutate cur m open_ not_pending other =
      elim (Bool-cases
        (k.upgrade_status_equal cur.status (upgrade_next_status k reason mutate cur))) [
          | inl e ↦ absurd (other (law.one_phase _ _ e ∙ m))
          | inr e ↦ ground arith
        ]

  single-stores :
      (decide : OdooUpgrade → Option OdooUpgrade) (cur new : OdooUpgrade)
      → decide cur ≡ some new
      → write_retrying k.again decide (accepting cur)
        ≡ record { written = some (cur, new); error = none }
  unfolding write_retrying submit
  single-stores decide cur new h =
      ap (λ d. settle k.again (submit cur d none) false (record { written = none; error = none })) h

  module _ (r : UpgradeReads) (cur : OdooUpgrade) (writes : r.writes ≡ accepting cur)
      (unfinished : upgrade_phase_terminal cur.status.phase ≡ false) where
    write_pass-Advances :
        (target reason : String) (mutate : Mutate) (n : ℕ)
        → ((s : OdooUpgradeStatus) → (mutate s).phase ≡ target)
        → (target == upgrade_phase_pending) ≡ false
        → rank cur.status.phase < rank target
        → Advances cur.status.phase (write_pass k r target reason mutate n)
    unfolding write_pass upgrade_write_status upgrade_next_status
    write_pass-Advances target reason mutate n m not_pending further =
        let new = record cur { status = upgrade_next_status k reason mutate cur } in
        let decide = upgrade_write_decision k target reason mutate in
        let stored =
          ap (write_retrying k.again decide) writes
          ∙ single-stores decide cur new (
              decision-stores target reason mutate cur (m cur.status) unfinished not_pending
                (λ e. absurd (omega (arith, further, ap rank e)))) in
        record {
          old = cur;
          new = new;
          written = ap (λ (w : Write OdooUpgrade). w.written) stored;
          further = subst (λ p. rank cur.status.phase < rank p) (sym (m cur.status)) further;
          no_error = ap (λ (w : Write OdooUpgrade). w.error) stored;
        }

    -- From an unfinished phase to a finished one.
    finish-Advances :
        (target reason : String) (mutate : Mutate) (n : ℕ)
        → ((s : OdooUpgradeStatus) → (mutate s).phase ≡ target)
        → (target == upgrade_phase_pending) ≡ false
        → upgrade_phase_terminal target ≡ true
        → Advances cur.status.phase (write_pass k r target reason mutate n)
    finish-Advances target reason mutate n m not_pending done =
        write_pass-Advances target reason mutate n m not_pending (ground arith)

    fail_pass-Advances :
        (reason msg : String) → Advances cur.status.phase (fail_pass k r reason msg)
    unfolding fail_pass upgrade_phase_terminal
    fail_pass-Advances reason msg =
        finish-Advances upgrade_phase_failed reason _ 0 (λ s. refl) refl refl

    -- The Job has finished.
    pub judge-Advances :
        (job : Job)
        → (job_succeeded job ≡ true) ⊎ ((reason : String) × (upgrade_job_failure job ≡ some reason))
        → Advances cur.status.phase (judge k r job)
    unfolding judge fail_done_pass upgrade_phase_terminal
    judge-Advances job finished = elim (Bool-cases (job_succeeded job)) [
      | inl e ↦ rw e (finish-Advances upgrade_phase_succeeded _ _ 0 (λ s. refl) refl refl)
      | inr e ↦ elim finished [
        | inl s ↦ absurd (ground arith)
        | inr (reason, f) ↦
            rw e (rw f (finish-Advances upgrade_phase_failed _ _ 0 (λ s. refl) refl refl))
      ]
    ]

    create_pass-Advances :
        (job : NewJob) (e : Option Error)
        → e ≡ none
        → r.create ≡ none
        → (cur.status.phase == upgrade_phase_running) ≡ false
        → Advances cur.status.phase (create_pass k r job e)
    unfolding create_pass created_pass running_status
    create_pass-Advances job e no_error created waiting =
        let a =
          write_pass-Advances upgrade_phase_running reason_running (running_status k r job.name)
            upgrade_requeue_running (λ s. refl) refl (ground arith) in
        rw no_error (
          rw created (record {
            old = a.old;
            new = a.new;
            written = a.written;
            further = a.further;
            no_error = a.no_error;
          }))

    upgrade_start-Advances :
        (up : OdooUpgrade) (inst : OdooInstance)
        → r.set_owner ≡ none
        → r.create ≡ none
        → (cur.status.phase == upgrade_phase_running) ≡ false
        → Advances cur.status.phase (upgrade_start k r up inst)
    unfolding upgrade_start
    upgrade_start-Advances up inst owned created waiting =
        elim (Bool-cases (upgrade_database up inst == "")) [
          | inl e ↦ rw e (fail_pass-Advances reason_invalid_spec "no database configured")
          | inr e ↦ rw e (create_pass-Advances _ r.set_owner owned created waiting)
        ]

    -- The pass of an upgrade that waits and may start.
    pub spec_pass-Advances :
        (up : OdooUpgrade) (e : Option Error) (inst : OdooInstance) (all : List OdooUpgrade)
        → r.instance_reply ≡ got inst
        → r.siblings ≡ got all
        → (upgrade_decide_start up all).may_start ≡ true
        → r.set_owner ≡ none
        → r.create ≡ none
        → (cur.status.phase == upgrade_phase_running) ≡ false
        → Advances cur.status.phase (spec_pass k r up e)
    unfolding spec_pass instance_pass queue_pass
    spec_pass-Advances up (some e) inst all there listed may owned created waiting =
        fail_pass-Advances reason_invalid_spec (error_text e)
    spec_pass-Advances up none inst all there listed may owned created waiting =
        rw there (rw listed (rw may (upgrade_start-Advances up inst owned created waiting)))

  accepting-no_error :
      (decide : OdooUpgrade → Option OdooUpgrade) (cur : OdooUpgrade)
      → (write_retrying k.again decide (accepting cur)).error ≡ none
  unfolding write_retrying submit settle
  accepting-no_error decide cur = elim (Option-cases (decide cur)) [
    | inl e ↦ rw e refl
    | inr (new, e) ↦ rw e refl
  ]

  -- The backfill is no obstacle.
  after_backfill-Advances :
      (r : UpgradeReads) (up : OdooUpgrade) (phase : String) (w : Write OdooUpgrade)
      → w.error ≡ none
      → Advances phase (upgrade_dispatch k r up)
      → Advances phase (after_backfill k r up w)
  unfolding after_backfill
  after_backfill-Advances r up phase w fine a =
      rw (fine, after_backfill)
        (record {
          old = a.old;
          new = a.new;
          written = a.written;
          further = a.further;
          no_error = a.no_error;
        })

  backfilled-Advances :
      (r : UpgradeReads) (up b : OdooUpgrade) (phase : String)
      → r.backfill ≡ accepting b
      → Advances phase (upgrade_dispatch k r up)
      → Advances phase (after_backfill k r up (upgrade_backfill_conditions k r.backfill))
  unfolding upgrade_backfill_conditions
  backfilled-Advances r up b phase filled a =
      after_backfill-Advances r up phase _
        (ap (λ xs. (upgrade_backfill_conditions k xs).error) filled
          ∙ accepting-no_error (upgrade_backfill_decision k) b)
        a

  pub reconcile_got-Advances :
      (r : UpgradeReads) (up b : OdooUpgrade) (phase : String)
      → r.upgrade ≡ got up
      → r.backfill ≡ accepting b
      → Advances phase (upgrade_dispatch k r up)
      → Advances phase (upgrade_reconcile k r)
  unfolding upgrade_reconcile reconcile_got
  reconcile_got-Advances r up b phase read filled a =
      subst (λ x. Advances phase (reconcile_got k r x)) (sym read)
        (elim (Bool-cases
          (not (up.status.phase == "") && not (ltb 0 (length up.status.conditions)))) [
            | inl e ↦ rw e (backfilled-Advances r up b phase filled a)
            | inr e ↦ rw e a
          ])
