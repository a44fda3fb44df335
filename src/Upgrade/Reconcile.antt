-- ===== src/Upgrade/Reconcile.antt =====
-- Reconcile, upgradeStart and upgradeMonitor of internal/controller/odooupgrade_controller.go. A pass
-- is a function of the answers that its API calls get and of the clock, which is read once; it
-- returns what it did.
pub mod Laws
pub mod Sound
pub mod Causes
pub mod Advance
use odoo_k8_operator.Base.{
  ℕ, ◌-◌, String, Bool, true, false, ◌&&◌, ◌||◌, not, ◌⧺◌, ◌==◌, ltb, if◌then◌else◌, is_some, List,
  [], ◌∷◌, Option, none, some, length, quote,
}
use odoo_k8_operator.Kube.{ApiError, Reply, got, refused, Pod, Time}
use odoo_k8_operator.Kube.Batch.{Job, NewJob}
use odoo_k8_operator.Kube.Retry.{Exchange, Write, ignore_not_found, is_not_found, is_already_exists}
use odoo_k8_operator.Errors.{Error, text, api, wrap, error_text}
use odoo_k8_operator.Machinery.{Machinery}
use odoo_k8_operator.Api.{OdooUpgrade, OdooUpgradeStatus}
use odoo_k8_operator.Api.Instance.{OdooInstance}
use odoo_k8_operator.Api.Reasons.{
  reason_invalid_spec, reason_instance_not_found, reason_pending, reason_running, reason_job_failed,
  reason_complete,
}
use odoo_k8_operator.Phases.{
  upgrade_phase_pending, upgrade_phase_running, upgrade_phase_succeeded, upgrade_phase_failed,
}
use odoo_k8_operator.JobStatus.{job_succeeded, upgrade_job_failure, job_completion, odoo_pod_node}
use odoo_k8_operator.PodLogs.{LogReads, upgrade_log_tail}
use odoo_k8_operator.Events.{Recorded}
use odoo_k8_operator.Queue.{QueueDecision, upgrade_decide_start}
use odoo_k8_operator.Upgrade.{upgrade_validate_spec, upgrade_database, upgrade_needs_node_pin}
use odoo_k8_operator.Upgrade.Job.{build_upgrade_job}
use odoo_k8_operator.Upgrade.Status.{
  Mutate, upgrade_phase_terminal, upgrade_write_status, upgrade_backfill_conditions,
  upgrade_write_events,
}

-- The answers that a pass gets.
pub record UpgradeReads : Type 0 where
  pub upgrade : Reply OdooUpgrade
  pub backfill : List (Exchange OdooUpgrade)
  pub instance_reply : Reply OdooInstance
  pub siblings : Reply (List OdooUpgrade)
  pub pods : Reply (List Pod)
  -- SetControllerReference
  pub set_owner : Option Error
  pub create : Option ApiError
  pub job : Reply Job
  pub logs : LogReads
  pub writes : List (Exchange OdooUpgrade)
  pub recorder : Bool
  pub now : Time

-- What a pass did: the writes that went through, in this order, and the result.
pub record UpgradePass : Type 0 where
  pub backfilled : Option (OdooUpgrade × OdooUpgrade)
  pub created : Option NewJob
  pub written : Option (OdooUpgrade × OdooUpgrade)
  pub events : List Recorded
  -- RequeueAfter, in seconds; 0 where it is unset
  pub requeue_after : ℕ
  pub error : Option Error

abbrev pub upgrade_requeue_pending : ℕ
upgrade_requeue_pending = 10

abbrev pub upgrade_requeue_running : ℕ
upgrade_requeue_running = 5

abbrev pub upgrade_job_grace : ℕ
upgrade_job_grace = 30

-- A pass that ends with nothing done.
unfoldable pub stop : ℕ → Option Error → UpgradePass
stop requeue e = record {
  backfilled = none;
  created = none;
  written = none;
  events = [];
  requeue_after = requeue;
  error = e;
}

module _ (k : Machinery) (r : UpgradeReads) where
  -- A pass that ends with a status write.
  write_pass : String → String → Mutate → ℕ → UpgradePass
  unfolding upgrade_write_status upgrade_write_events
  write_pass target reason mutate requeue =
      let w = upgrade_write_status k target reason mutate r.writes in
      record {
        backfilled = none;
        created = none;
        written = w.written;
        events = upgrade_write_events r.recorder w.written;
        requeue_after = requeue;
        error = w.error;
      }

  -- upgradeSetPending
  upgrade_set_pending : String → String → UpgradePass
  unfolding write_pass
  upgrade_set_pending reason msg =
      write_pass upgrade_phase_pending reason
        (λ s. record s { phase = upgrade_phase_pending; message = msg }) upgrade_requeue_pending

  -- A write of the Failed phase with a message.
  fail_pass : String → String → UpgradePass
  unfolding write_pass
  fail_pass reason msg =
      write_pass upgrade_phase_failed reason
        (λ s. record s { phase = upgrade_phase_failed; message = msg }) 0

  -- The same with the time of completion.
  fail_done_pass : String → UpgradePass
  unfolding write_pass
  fail_done_pass msg =
      write_pass upgrade_phase_failed reason_job_failed
        (λ s. record s {
          phase = upgrade_phase_failed;
          message = msg;
          completion_time = some r.now;
        })
        0

  keep_or : Option Time → Option Time
  keep_or none = some r.now
  keep_or (some t) = some t

  -- The write that marks the upgrade Running.
  running_status : String → Mutate
  unfolding keep_or
  running_status job_name s = record s {
    phase = upgrade_phase_running;
    job_name = job_name;
    message = "";
    completion_time = none;
    start_time = keep_or s.start_time;
  }

  -- upgradeStart after Create
  created_pass : NewJob → Option ApiError → UpgradePass
  unfolding write_pass running_status stop
  created_pass job answer =
      let p =
        write_pass upgrade_phase_running reason_running (running_status job.name)
          upgrade_requeue_running in
      elim answer [
        | none ↦ record p { created = some job }
        | some e ↦
            if is_already_exists e
            then p
            else stop 0 (some (wrap "failed to create upgrade job: " (api e)))
      ]

  -- upgradeStart from the owner reference on
  create_pass : NewJob → Option Error → UpgradePass
  unfolding created_pass stop
  create_pass job (some e) = stop 0 (some e)
  create_pass job none = created_pass job r.create

  -- upgradeStart
  unfoldable pub upgrade_start : OdooUpgrade → OdooInstance → UpgradePass
  unfolding create_pass fail_pass
  upgrade_start up inst =
      let database = upgrade_database up inst in
      let node_name = if upgrade_needs_node_pin inst.spec then odoo_pod_node r.pods else "" in
      if database == ""
      then fail_pass reason_invalid_spec "no database configured"
      else create_pass (build_upgrade_job up inst database node_name) r.set_owner

  within_grace : Option Time → Bool
  within_grace none = false
  within_grace (some start) = ltb (r.now - start) upgrade_job_grace

  failure_message : String → String
  unfolding upgrade_log_tail
  failure_message reason =
      let tail = upgrade_log_tail r.logs in
      if not (tail == "") then reason ⧺ "\n--- last log lines ---\n" ⧺ tail else reason

  -- upgradeMonitor where the Job was read
  pub judge : Job → UpgradePass
  unfolding write_pass fail_done_pass stop failure_message
  judge job =
      if job_succeeded job
      then write_pass upgrade_phase_succeeded reason_complete
          (λ s. record s {
            phase = upgrade_phase_succeeded;
            message = "";
            completion_time = some (job_completion r.now job);
          })
          0
      else elim (upgrade_job_failure job) [
        | some reason ↦ fail_done_pass (failure_message reason)
        | none ↦ stop upgrade_requeue_running none
      ]

  -- upgradeMonitor
  unfoldable pub upgrade_monitor : OdooUpgrade → Reply Job → UpgradePass
  unfolding judge within_grace fail_done_pass stop
  upgrade_monitor up (got job) = judge job
  upgrade_monitor up (refused e) =
      if is_not_found e
      then (if within_grace up.status.start_time
          then stop upgrade_requeue_running none
          else fail_done_pass ("upgrade Job " ⧺ up.status.job_name ⧺ " no longer exists"))
      else stop 0 (some (api e))

  -- Reconcile once the instance is there: the queue, then the start.
  queue_pass : OdooUpgrade → OdooInstance → Reply (List OdooUpgrade) → UpgradePass
  unfolding upgrade_start upgrade_set_pending stop
  queue_pass up inst (refused e) = stop 0 (some (api e))
  queue_pass up inst (got all) =
      let decision = upgrade_decide_start up all in
      if decision.may_start
      then upgrade_start up inst
      else upgrade_set_pending reason_pending
          ("waiting for upgrade " ⧺ quote decision.blocked_by ⧺ " on the same instance to finish")

  instance_pass : OdooUpgrade → Reply OdooInstance → UpgradePass
  unfolding queue_pass upgrade_set_pending stop
  instance_pass up (got inst) = queue_pass up inst r.siblings
  instance_pass up (refused e) =
      if is_not_found e
      then upgrade_set_pending reason_instance_not_found "waiting for OdooInstance"
      else stop 0 (some (api e))

  pub spec_pass : OdooUpgrade → Option Error → UpgradePass
  unfolding fail_pass instance_pass
  spec_pass up (some e) = fail_pass reason_invalid_spec (error_text e)
  spec_pass up none = instance_pass up r.instance_reply

  -- Reconcile from its switch on the phase on
  unfoldable pub upgrade_dispatch : OdooUpgrade → UpgradePass
  unfolding upgrade_phase_terminal upgrade_monitor spec_pass stop
  upgrade_dispatch up =
      if upgrade_phase_terminal up.status.phase
      then stop 0 none
      else if up.status.phase == upgrade_phase_running && not (up.status.job_name == "")
      then upgrade_monitor up r.job
      else spec_pass up (upgrade_validate_spec up)

  -- The backfill goes first; its error ends the pass.
  after_backfill : OdooUpgrade → Write OdooUpgrade → UpgradePass
  unfolding upgrade_dispatch stop
  after_backfill up w = elim w.error [
    | some e ↦ record (stop 0 (some e)) { backfilled = w.written }
    | none ↦ record (upgrade_dispatch up) { backfilled = w.written }
  ]

  reconcile_got : Reply OdooUpgrade → UpgradePass
  unfolding after_backfill upgrade_backfill_conditions upgrade_dispatch stop
  reconcile_got (refused e) = stop 0 (ignore_not_found e)
  reconcile_got (got up) =
      if not (up.status.phase == "") && not (ltb 0 (length up.status.conditions))
      then after_backfill up (upgrade_backfill_conditions k r.backfill)
      else upgrade_dispatch up

  -- Reconcile
  unfoldable pub upgrade_reconcile : UpgradePass
  unfolding reconcile_got
  upgrade_reconcile = reconcile_got r.upgrade
