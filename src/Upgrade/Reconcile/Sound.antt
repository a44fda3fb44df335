-- ===== src/Upgrade/Reconcile/Sound.antt =====
-- Every pass over an OdooUpgrade stores a legal successor of what the server held.
use odoo_k8_operator.Base.{
  ℕ, String, Bool, true, false, ◌&&◌, not, ◌==◌, if◌then◌else◌, List, Option, none, some, ◌≡◌, refl,
  inl, inr, arith, Option-cases, ltb, length,
}
use odoo_k8_operator.Kube.{ApiError, Reply, got, refused}
use odoo_k8_operator.Kube.Batch.{Job, NewJob}
use odoo_k8_operator.Kube.Retry.{ignore_not_found, is_not_found, is_already_exists}
use odoo_k8_operator.Kube.Retry.Laws.{write_retrying-Accepted}
use odoo_k8_operator.Errors.{Error, wrap, api}
use odoo_k8_operator.Machinery.{Machinery}
use odoo_k8_operator.Api.{OdooUpgrade, OdooUpgradeStatus}
use odoo_k8_operator.Api.Instance.{OdooInstance}
use odoo_k8_operator.Api.Reasons.{reason_running}
use odoo_k8_operator.Phases.{upgrade_phase_running}
use odoo_k8_operator.JobStatus.{job_succeeded, upgrade_job_failure}
use odoo_k8_operator.Upgrade.Status.{
  Mutate, upgrade_phase_terminal, upgrade_write_decision, upgrade_write_status,
  upgrade_backfill_conditions, upgrade_backfill_decision,
}
use odoo_k8_operator.Upgrade.Reconcile.{
  UpgradeReads, UpgradePass, stop, write_pass, upgrade_set_pending, fail_pass, fail_done_pass,
  failure_message, running_status, created_pass, create_pass, upgrade_start, judge, upgrade_monitor,
  queue_pass, instance_pass, spec_pass, upgrade_dispatch, after_backfill, reconcile_got,
  upgrade_reconcile,
}
use odoo_k8_operator.Upgrade.Reconcile.Laws.{IsTarget, decision-IsLegal, Wrote, Backfilled}

module _ (k : Machinery) (r : UpgradeReads) where
  -- Whatever the pass stores is a legal step.
  record IsSound (p : UpgradePass) : Type 0 where
    sound : (cur new : OdooUpgrade) → p.written ≡ some (cur, new) → Wrote r.writes cur new
    no_backfill : p.backfilled ≡ none

  stop-IsSound : (n : ℕ) (e : Option Error) → IsSound (stop n e)
  unfolding stop
  stop-IsSound n e = record { sound = λ cur new h. cc; no_backfill = refl }

  if-IsSound : (b : Bool) (p q : UpgradePass) → IsSound p → IsSound q → IsSound (if b then p else q)
  if-IsSound true p q hp hq = hp
  if-IsSound false p q hp hq = hq

  write_pass-IsSound :
      (target reason : String) (mutate : Mutate) (n : ℕ)
      → IsTarget target
      → ((s : OdooUpgradeStatus) → (mutate s).phase ≡ target)
      → IsSound (write_pass k r target reason mutate n)
  unfolding write_pass upgrade_write_status
  write_pass-IsSound target reason mutate n t m = record {
    sound = λ cur new h.
        let (x, i, a) =
          write_retrying-Accepted k.again (upgrade_write_decision k target reason mutate) r.writes
            cur new h in
        record {
          exchange = x;
          of_pass = i;
          was_read = a.was_read;
          accepted = a.accepted;
          legal = decision-IsLegal k target reason mutate cur new t m a.decided;
        };
    no_backfill = refl;
  }

  upgrade_set_pending-IsSound : (reason msg : String) → IsSound (upgrade_set_pending k r reason msg)
  unfolding upgrade_set_pending
  upgrade_set_pending-IsSound reason msg = write_pass-IsSound _ reason _ 10 (inl refl) (λ s. refl)

  fail_pass-IsSound : (reason msg : String) → IsSound (fail_pass k r reason msg)
  unfolding fail_pass upgrade_phase_terminal
  fail_pass-IsSound reason msg = write_pass-IsSound _ reason _ 0 (inr (inr refl)) (λ s. refl)

  fail_done_pass-IsSound : (msg : String) → IsSound (fail_done_pass k r msg)
  unfolding fail_done_pass upgrade_phase_terminal
  fail_done_pass-IsSound msg = write_pass-IsSound _ _ _ 0 (inr (inr refl)) (λ s. refl)

  created_pass-IsSound :
      (job : NewJob) (answer : Option ApiError) → IsSound (created_pass k r job answer)
  unfolding created_pass running_status
  created_pass-IsSound job none = record {
    sound =
        (write_pass-IsSound upgrade_phase_running reason_running (running_status k r job.name) 5
          (inr (inl refl)) (λ s. refl)).sound;
    no_backfill = refl;
  }
  created_pass-IsSound job (some e) =
      if-IsSound (is_already_exists e) _ _ (write_pass-IsSound _ _ _ 5 (inr (inl refl)) (λ s. refl))
        (stop-IsSound 0 (some (wrap "failed to create upgrade job: " (api e))))

  create_pass-IsSound : (job : NewJob) (e : Option Error) → IsSound (create_pass k r job e)
  unfolding create_pass
  create_pass-IsSound job none = created_pass-IsSound job r.create
  create_pass-IsSound job (some e) = stop-IsSound 0 (some e)

  upgrade_start-IsSound :
      (up : OdooUpgrade) (inst : OdooInstance) → IsSound (upgrade_start k r up inst)
  unfolding upgrade_start
  upgrade_start-IsSound up inst =
      if-IsSound _ _ _ (fail_pass-IsSound _ _) (create_pass-IsSound _ r.set_owner)

  failure-IsSound :
      (failure : Option String)
      → IsSound (elim failure [
        | some reason ↦ fail_done_pass k r (failure_message k r reason)
        | none ↦ stop 5 none
      ])
  failure-IsSound (some reason) = fail_done_pass-IsSound _
  failure-IsSound none = stop-IsSound 5 none

  judge-IsSound : (job : Job) → IsSound (judge k r job)
  unfolding judge upgrade_phase_terminal
  judge-IsSound job =
      if-IsSound (job_succeeded job) _ _ (write_pass-IsSound _ _ _ 0 (inr (inr refl)) (λ s. refl))
        (failure-IsSound (upgrade_job_failure job))

  upgrade_monitor-IsSound :
      (up : OdooUpgrade) (reply : Reply Job) → IsSound (upgrade_monitor k r up reply)
  unfolding upgrade_monitor
  upgrade_monitor-IsSound up (got job) = judge-IsSound job
  upgrade_monitor-IsSound up (refused e) =
      if-IsSound (is_not_found e) _ _
        (if-IsSound _ _ _ (stop-IsSound 5 none) (fail_done_pass-IsSound _))
        (stop-IsSound 0 (some (api e)))

  queue_pass-IsSound :
      (up : OdooUpgrade) (inst : OdooInstance) (reply : Reply (List OdooUpgrade))
      → IsSound (queue_pass k r up inst reply)
  unfolding queue_pass
  queue_pass-IsSound up inst (refused e) = stop-IsSound 0 (some (api e))
  queue_pass-IsSound up inst (got all) =
      if-IsSound _ _ _ (upgrade_start-IsSound up inst) (upgrade_set_pending-IsSound _ _)

  instance_pass-IsSound :
      (up : OdooUpgrade) (reply : Reply OdooInstance) → IsSound (instance_pass k r up reply)
  unfolding instance_pass
  instance_pass-IsSound up (got inst) = queue_pass-IsSound up inst r.siblings
  instance_pass-IsSound up (refused e) =
      if-IsSound (is_not_found e) _ _ (upgrade_set_pending-IsSound _ _)
        (stop-IsSound 0 (some (api e)))

  spec_pass-IsSound : (up : OdooUpgrade) (e : Option Error) → IsSound (spec_pass k r up e)
  unfolding spec_pass
  spec_pass-IsSound up (some e) = fail_pass-IsSound _ _
  spec_pass-IsSound up none = instance_pass-IsSound up r.instance_reply

  upgrade_dispatch-IsSound : (up : OdooUpgrade) → IsSound (upgrade_dispatch k r up)
  unfolding upgrade_dispatch
  upgrade_dispatch-IsSound up =
      if-IsSound _ _ _ (stop-IsSound 0 none)
        (if-IsSound _ _ _ (upgrade_monitor-IsSound up r.job) (spec_pass-IsSound up _))

  -- What a whole pass may store: a backfill, then a legal status write.
  record IsSoundPass (p : UpgradePass) : Type 0 where
    sound : (cur new : OdooUpgrade) → p.written ≡ some (cur, new) → Wrote r.writes cur new
    backfill :
        (cur new : OdooUpgrade) → p.backfilled ≡ some (cur, new) → Backfilled r.backfill cur new

  backfill_decision-only_conditions :
      (cur new : OdooUpgrade)
      → upgrade_backfill_decision k cur ≡ some new
      → new ≡ record cur { status = record cur.status { conditions = new.status.conditions } }
  unfolding upgrade_backfill_decision
  backfill_decision-only_conditions cur new h = ground arith

  backfill-Backfilled :
      (cur new : OdooUpgrade)
      → (upgrade_backfill_conditions k r.backfill).written ≡ some (cur, new)
      → Backfilled r.backfill cur new
  unfolding upgrade_backfill_conditions
  backfill-Backfilled cur new h =
      let (x, i, a) =
        write_retrying-Accepted k.again (upgrade_backfill_decision k) r.backfill cur new h in
      record {
        exchange = x;
        of_pass = i;
        was_read = a.was_read;
        accepted = a.accepted;
        only_conditions = backfill_decision-only_conditions cur new a.decided;
      }

  dispatch-IsSoundPass : (up : OdooUpgrade) → IsSoundPass (upgrade_dispatch k r up)
  dispatch-IsSoundPass up = record {
    sound = (upgrade_dispatch-IsSound up).sound;
    backfill = λ cur new h. ground (arith, (upgrade_dispatch-IsSound up).no_backfill);
  }

  after_backfill-IsSoundPass :
      (up : OdooUpgrade)
      → IsSoundPass (after_backfill k r up (upgrade_backfill_conditions k r.backfill))
  unfolding after_backfill
  after_backfill-IsSoundPass up =
      let w = upgrade_backfill_conditions k r.backfill in
      elim (Option-cases w.error) [
        | inl e ↦ record {
          sound = λ cur new h. (upgrade_dispatch-IsSound up).sound cur new (ground arith);
          backfill = λ cur new h. backfill-Backfilled cur new (ground arith);
        }
        | inr (x, e) ↦ record {
          sound = λ cur new h. (stop-IsSound 0 (some x)).sound cur new (ground arith);
          backfill = λ cur new h. backfill-Backfilled cur new (ground arith);
        }
      ]

  if-IsSoundPass :
      (b : Bool) (p q : UpgradePass)
      → IsSoundPass p
      → IsSoundPass q
      → IsSoundPass (if b then p else q)
  if-IsSoundPass true p q hp hq = hp
  if-IsSoundPass false p q hp hq = hq

  reconcile_got-IsSoundPass : (reply : Reply OdooUpgrade) → IsSoundPass (reconcile_got k r reply)
  unfolding reconcile_got
  reconcile_got-IsSoundPass (refused e) =
      let s = stop-IsSound 0 (ignore_not_found e) in
      record { sound = s.sound; backfill = λ cur new h. ground (arith, s.no_backfill) }
  reconcile_got-IsSoundPass (got up) =
      if-IsSoundPass (not (up.status.phase == "") && not (ltb 0 (length up.status.conditions))) _ _
        (after_backfill-IsSoundPass up) (dispatch-IsSoundPass up)

  -- Whatever a pass stores as the upgrade's status, from whatever stale view it started, replaces an
  -- object that had not finished, by one with the same metadata and spec, never takes a Running one
  -- back to Pending, and was decided on the version that the accepted update's read returned.
  pub upgrade_reconcile-Wrote :
      (cur new : OdooUpgrade)
      → (upgrade_reconcile k r).written ≡ some (cur, new)
      → Wrote r.writes cur new
  unfolding upgrade_reconcile
  upgrade_reconcile-Wrote cur new h = (reconcile_got-IsSoundPass r.upgrade).sound cur new h

  -- A backfill of conditions replaces the version that its read returned, and changes nothing but the
  -- conditions.
  pub upgrade_reconcile-Backfilled :
      (cur new : OdooUpgrade)
      → (upgrade_reconcile k r).backfilled ≡ some (cur, new)
      → Backfilled r.backfill cur new
  unfolding upgrade_reconcile
  upgrade_reconcile-Backfilled cur new h = (reconcile_got-IsSoundPass r.upgrade).backfill cur new h
