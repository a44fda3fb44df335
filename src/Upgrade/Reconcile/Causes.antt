-- ===== src/Upgrade/Reconcile/Causes.antt =====
-- What a pass over an OdooUpgrade must have read before it creates a Job or stores a success.
use odoo_k8_operator.Base.{
  ℕ, String, Bool, true, false, ◌&&◌, not, ◌==◌, if◌then◌else◌, List, Option, none, some, ◌≡◌, refl,
  sym, ◌∙◌, subst, inl, inr, Option-cases, arith, eq_iff, ltb, length, ◌⧺◌,
}
use odoo_k8_operator.Kube.{ApiError, Reply, got, refused}
use odoo_k8_operator.Kube.Batch.{Job, NewJob}
use odoo_k8_operator.Kube.Retry.{ignore_not_found, Write, is_not_found, is_already_exists}
use odoo_k8_operator.Kube.Retry.Laws.{write_retrying-Accepted}
use odoo_k8_operator.Errors.{Error, wrap, api, error_text}
use odoo_k8_operator.Machinery.{Machinery}
use odoo_k8_operator.Api.{OdooUpgrade, OdooUpgradeStatus}
use odoo_k8_operator.Api.Instance.{OdooInstance}
use odoo_k8_operator.Api.Reasons.{
  reason_running, reason_invalid_spec, reason_pending, reason_instance_not_found,
}
use odoo_k8_operator.Phases.{
  upgrade_phase_pending, upgrade_phase_running, upgrade_phase_succeeded, upgrade_phase_failed,
}
use odoo_k8_operator.JobStatus.{job_succeeded, upgrade_job_failure, odoo_pod_node}
use odoo_k8_operator.Queue.{upgrade_decide_start}
use odoo_k8_operator.Upgrade.{upgrade_validate_spec, upgrade_database, upgrade_needs_node_pin}
use odoo_k8_operator.Upgrade.Job.{build_upgrade_job}
use odoo_k8_operator.Upgrade.Status.{
  Mutate, upgrade_phase_terminal, upgrade_write_decision, upgrade_write_status,
  upgrade_backfill_conditions,
}
use odoo_k8_operator.Upgrade.Reconcile.{
  UpgradeReads, UpgradePass, stop, write_pass, upgrade_set_pending, fail_pass, fail_done_pass,
  failure_message, running_status, created_pass, create_pass, upgrade_start, within_grace, judge,
  upgrade_monitor, queue_pass, instance_pass, spec_pass, upgrade_dispatch, after_backfill,
  reconcile_got, upgrade_reconcile,
}
use odoo_k8_operator.Upgrade.Reconcile.Laws.{decision-phase}

-- The pass read an upgrade that may start, and the Job is the one that is built from it.
pub record IsStart (r : UpgradeReads) (job : NewJob) : Type 0 where
  pub upgrade : OdooUpgrade
  pub inst : OdooInstance
  pub siblings : List OdooUpgrade
  pub node : String
  pub was_read : r.upgrade ≡ got upgrade
  pub instance_read : r.instance_reply ≡ got inst
  pub siblings_read : r.siblings ≡ got siblings
  pub not_terminal : upgrade_phase_terminal upgrade.status.phase ≡ false
  pub valid : upgrade_validate_spec upgrade ≡ none
  pub may_start : (upgrade_decide_start upgrade siblings).may_start ≡ true
  pub database : (upgrade_database upgrade inst == "") ≡ false
  pub built : job ≡ build_upgrade_job upgrade inst (upgrade_database upgrade inst) node

-- The pass read a Job that succeeded.
pub record IsSuccess (r : UpgradeReads) : Type 0 where
  pub job : Job
  pub was_read : r.job ≡ got job
  pub succeeded : job_succeeded job ≡ true

pub record IsCaused (r : UpgradeReads) (p : UpgradePass) : Type 0 where
  pub starts : (job : NewJob) → p.created ≡ some job → IsStart r job
  pub succeeds :
      (cur new : OdooUpgrade)
      → p.written ≡ some (cur, new)
      → new.status.phase ≡ upgrade_phase_succeeded
      → IsSuccess r

module _ (k : Machinery) (r : UpgradeReads) where
  stop-IsCaused : (n : ℕ) (e : Option Error) → IsCaused r (stop n e)
  unfolding stop
  stop-IsCaused n e = record { starts = λ j h. ground arith; succeeds = λ c n h p. ground arith }

  if-IsCaused :
      (b : Bool) (p q : UpgradePass)
      → (b ≡ true → IsCaused r p)
      → (b ≡ false → IsCaused r q)
      → IsCaused r (if b then p else q)
  if-IsCaused true p q f g = f refl
  if-IsCaused false p q f g = g refl

  write_pass-IsCaused :
      (target reason : String) (mutate : Mutate) (n : ℕ)
      → ((s : OdooUpgradeStatus) → (mutate s).phase ≡ target)
      → (target ≡ upgrade_phase_succeeded → IsSuccess r)
      → IsCaused r (write_pass k r target reason mutate n)
  unfolding write_pass upgrade_write_status
  write_pass-IsCaused target reason mutate n m s = record {
    starts = λ j h. ground arith;
    succeeds = λ cur new h p.
        let (x, i, a) =
          write_retrying-Accepted k.again (upgrade_write_decision k target reason mutate) r.writes
            cur new h in
        s (sym (decision-phase k target reason mutate cur new m a.decided) ∙ p);
  }

  set_pending-IsCaused : (reason msg : String) → IsCaused r (upgrade_set_pending k r reason msg)
  unfolding upgrade_set_pending
  set_pending-IsCaused reason msg =
      write_pass-IsCaused _ reason _ 10 (λ s. refl)
        (λ e. ground (arith, eq_iff upgrade_phase_pending upgrade_phase_succeeded))

  fail_pass-IsCaused : (reason msg : String) → IsCaused r (fail_pass k r reason msg)
  unfolding fail_pass
  fail_pass-IsCaused reason msg =
      write_pass-IsCaused _ reason _ 0 (λ s. refl)
        (λ e. ground (arith, eq_iff upgrade_phase_failed upgrade_phase_succeeded))

  fail_done-IsCaused : (msg : String) → IsCaused r (fail_done_pass k r msg)
  unfolding fail_done_pass
  fail_done-IsCaused msg =
      write_pass-IsCaused _ _ _ 0 (λ s. refl)
        (λ e. ground (arith, eq_iff upgrade_phase_failed upgrade_phase_succeeded))

  running-IsCaused :
      (name : String)
      → IsCaused r (write_pass k r upgrade_phase_running reason_running (running_status k r name) 5)
  unfolding running_status
  running-IsCaused name =
      write_pass-IsCaused _ _ _ 5 (λ s. refl)
        (λ e. ground (arith, eq_iff upgrade_phase_running upgrade_phase_succeeded))

  created-IsCaused :
      (job : NewJob) (answer : Option ApiError)
      → IsStart r job
      → IsCaused r (created_pass k r job answer)
  unfolding created_pass
  created-IsCaused job none s = record {
    starts = λ j h. subst (IsStart r) (ground arith) s;
    succeeds = (running-IsCaused job.name).succeeds;
  }
  created-IsCaused job (some e) s =
      if-IsCaused (is_already_exists e) _ _ (λ h. running-IsCaused job.name)
        (λ h. stop-IsCaused 0 (some (wrap "failed to create upgrade job: " (api e))))

  create-IsCaused :
      (job : NewJob) (e : Option Error) → IsStart r job → IsCaused r (create_pass k r job e)
  unfolding create_pass
  create-IsCaused job none s = created-IsCaused job r.create s
  create-IsCaused job (some e) s = stop-IsCaused 0 (some e)

  failure-IsCaused :
      (failure : Option String)
      → IsCaused r (elim failure [
        | some reason ↦ fail_done_pass k r (failure_message k r reason)
        | none ↦ stop 5 none
      ])
  failure-IsCaused (some reason) = fail_done-IsCaused (failure_message k r reason)
  failure-IsCaused none = stop-IsCaused 5 none

  monitor-IsCaused :
      (up : OdooUpgrade) (reply : Reply Job)
      → r.job ≡ reply
      → IsCaused r (upgrade_monitor k r up reply)
  unfolding upgrade_monitor judge
  monitor-IsCaused up (got job) read =
      if-IsCaused (job_succeeded job) _ _
        (λ h.
          write_pass-IsCaused _ _ _ 0 (λ s. refl)
            (λ e. record { job = job; was_read = read; succeeded = h }))
        (λ h. failure-IsCaused (upgrade_job_failure job))
  monitor-IsCaused up (refused e) read =
      if-IsCaused (is_not_found e) _ _
        (λ h.
          if-IsCaused (within_grace k r up.status.start_time) _ _ (λ h. stop-IsCaused 5 none)
            (λ h. fail_done-IsCaused ("upgrade Job " ⧺ up.status.job_name ⧺ " no longer exists")))
        (λ h. stop-IsCaused 0 (some (api e)))

  module _ (up : OdooUpgrade) (read : r.upgrade ≡ got up)
      (active : upgrade_phase_terminal up.status.phase ≡ false)
      (valid : upgrade_validate_spec up ≡ none) where
    start-IsCaused :
        (inst : OdooInstance) (all : List OdooUpgrade)
        → r.instance_reply ≡ got inst
        → r.siblings ≡ got all
        → (upgrade_decide_start up all).may_start ≡ true
        → IsCaused r (upgrade_start k r up inst)
    unfolding upgrade_start
    start-IsCaused inst all i s may =
        if-IsCaused (upgrade_database up inst == "") _ _
          (λ h. fail_pass-IsCaused reason_invalid_spec "no database configured")
          (λ h. create-IsCaused _ r.set_owner (record {
            upgrade = up;
            inst = inst;
            siblings = all;
            node = if upgrade_needs_node_pin inst.spec then odoo_pod_node r.pods else "";
            was_read = read;
            instance_read = i;
            siblings_read = s;
            not_terminal = active;
            valid = valid;
            may_start = may;
            database = h;
            built = refl;
          }))

    queue-IsCaused :
        (inst : OdooInstance) (reply : Reply (List OdooUpgrade))
        → r.instance_reply ≡ got inst
        → r.siblings ≡ reply
        → IsCaused r (queue_pass k r up inst reply)
    unfolding queue_pass
    queue-IsCaused inst (refused e) i s = stop-IsCaused 0 (some (api e))
    queue-IsCaused inst (got all) i s =
        if-IsCaused (upgrade_decide_start up all).may_start _ _
          (λ may. start-IsCaused inst all i s may) (λ h. set_pending-IsCaused reason_pending _)

    instance-IsCaused :
        (reply : Reply OdooInstance)
        → r.instance_reply ≡ reply
        → IsCaused r (instance_pass k r up reply)
    unfolding instance_pass
    instance-IsCaused (got inst) i = queue-IsCaused inst r.siblings i refl
    instance-IsCaused (refused e) i =
        if-IsCaused (is_not_found e) _ _
          (λ h. set_pending-IsCaused reason_instance_not_found "waiting for OdooInstance")
          (λ h. stop-IsCaused 0 (some (api e)))

  spec-IsCaused :
      (up : OdooUpgrade) (e : Option Error)
      → r.upgrade ≡ got up
      → upgrade_phase_terminal up.status.phase ≡ false
      → upgrade_validate_spec up ≡ e
      → IsCaused r (spec_pass k r up e)
  unfolding spec_pass
  spec-IsCaused up (some e) read active valid =
      fail_pass-IsCaused reason_invalid_spec (error_text e)
  spec-IsCaused up none read active valid =
      instance-IsCaused up read active valid r.instance_reply refl

  dispatch-IsCaused : (up : OdooUpgrade) → r.upgrade ≡ got up → IsCaused r (upgrade_dispatch k r up)
  unfolding upgrade_dispatch
  dispatch-IsCaused up read =
      if-IsCaused (upgrade_phase_terminal up.status.phase) _ _ (λ h. stop-IsCaused 0 none)
        (λ active.
          if-IsCaused ((up.status.phase == upgrade_phase_running) && not (up.status.job_name == ""))
            _ _ (λ h. monitor-IsCaused up r.job refl)
            (λ h. spec-IsCaused up (upgrade_validate_spec up) read active refl))

  after-IsCaused :
      (up : OdooUpgrade) (w : Write OdooUpgrade)
      → r.upgrade ≡ got up
      → IsCaused r (after_backfill k r up w)
  unfolding after_backfill
  after-IsCaused up w read = elim (Option-cases w.error) [
    | inl e ↦ record {
      starts = λ j h. (dispatch-IsCaused up read).starts j (ground arith);
      succeeds = λ c n h p. (dispatch-IsCaused up read).succeeds c n (ground arith) p;
    }
    | inr (x, e) ↦ record {
      starts = λ j h. (stop-IsCaused 0 (some x)).starts j (ground arith);
      succeeds = λ c n h p. (stop-IsCaused 0 (some x)).succeeds c n (ground arith) p;
    }
  ]

  got-IsCaused :
      (reply : Reply OdooUpgrade) → r.upgrade ≡ reply → IsCaused r (reconcile_got k r reply)
  unfolding reconcile_got
  got-IsCaused (refused e) read = stop-IsCaused 0 (ignore_not_found e)
  got-IsCaused (got up) read =
      if-IsCaused (not (up.status.phase == "") && not (ltb 0 (length up.status.conditions))) _ _
        (λ h. after-IsCaused up (upgrade_backfill_conditions k r.backfill) read)
        (λ h. dispatch-IsCaused up read)

  -- Whatever answers a pass gets: it creates a Job only for the upgrade that it read, where that has
  -- not finished, its spec is valid, its instance is there, the queue of the upgrades that it listed
  -- lets it start, and a database is named, and the Job is the one built from these; and it stores
  -- the phase Succeeded only where the Job that it read succeeded.
  pub upgrade_reconcile-IsCaused : IsCaused r (upgrade_reconcile k r)
  unfolding upgrade_reconcile
  upgrade_reconcile-IsCaused = got-IsCaused r.upgrade refl
