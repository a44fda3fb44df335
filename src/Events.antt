-- ===== src/Events.antt =====
-- internal/controller/events.go and backupEvents (odoobackup_status.go): the events of a status
-- change, and how they are recorded.
pub mod Laws
use odoo_k8_operator.Base.{
  ℕ, String, Bool, true, false, ◌&&◌, ◌||◌, not, ◌⧺◌, ◌==◌, ltb, if◌then◌else◌, List, [], ◌∷◌, ◌++◌,
  map, Option, none, some, length, join, quote, len, slice,
}
use odoo_k8_operator.Kube.{Condition}
use odoo_k8_operator.Kube.Meta.{ConditionSet}
use odoo_k8_operator.Api.{OdooAddonStatus, OdooUpgradeStatus, OdooBackupStatus}
use odoo_k8_operator.Api.Instance.{OdooInstanceStatus}
use odoo_k8_operator.Api.Reasons.{
  type_degraded, reason_upgrade_failed, reason_initialization_failed, reason_module_conflict,
}
use odoo_k8_operator.Phases.{
  upgrade_phase_running, upgrade_phase_succeeded, upgrade_phase_failed, backup_phase_running,
  backup_phase_succeeded, backup_phase_failed, phase_syncing, phase_synced,
}
use odoo_k8_operator.Conditions.{short_id}
use odoo_k8_operator.Conditions.Instance.{is_true}

pub data EventType : Type 0 where
  normal warning : EventType

-- statusEvent
pub record StatusEvent : Type 0 where
  pub type : EventType
  pub reason : String
  pub action : String
  pub message : String
  pub related_upgrade : String

event : EventType → String → String → String → StatusEvent
event type reason action message = record {
  type = type;
  reason = reason;
  action = action;
  message = message;
  related_upgrade = "";
}

event_about : EventType → String → String → String → String → StatusEvent
event_about type reason action message upgrade = record {
  type = type;
  reason = reason;
  action = action;
  message = message;
  related_upgrade = upgrade;
}

-- One event if the test holds.
abbrev when : Bool → StatusEvent → List StatusEvent
when test e = if test then e ∷ [] else []

-- The condition was True with the same reason and message.
was_true_as : Condition → Option Condition → Bool
was_true_as a none = false
was_true_as a (some b) = is_true b.status && (b.reason == a.reason) && (b.message == a.message)

newly_true_of : Option Condition → Option Condition → Option Condition
unfolding was_true_as
newly_true_of before none = none
newly_true_of before (some a) =
    if not (is_true a.status) then none else if was_true_as a before then none else some a

-- newlyTrue
unfoldable pub newly_true :
    ConditionSet → List Condition → List Condition → String → Option Condition
unfolding newly_true_of
newly_true m before after type = newly_true_of (m.find before type) (m.find after type)

instance_degraded_events : OdooInstanceStatus → Option Condition → List StatusEvent
unfolding event event_about
instance_degraded_events after none = []
instance_degraded_events after (some c) =
    (if c.reason == reason_upgrade_failed
      then event_about warning "UpgradeFailed" "Upgrade" c.message after.active_upgrade
      else if c.reason == reason_initialization_failed
      then event_about warning "InitializationFailed" "Initialize" c.message after.init_upgrade
      else event warning "ReconcileFailed" "Reconcile" c.message)
    ∷ []

unfoldable pub instance_events :
    ConditionSet → OdooInstanceStatus → OdooInstanceStatus → String → List StatusEvent
unfolding instance_degraded_events event event_about newly_true
instance_events m before after succeeded_upgrade =
    instance_degraded_events after (newly_true m before.conditions after.conditions type_degraded)
    ++ (when
          (not (after.active_upgrade == "") && not (after.active_upgrade == before.active_upgrade))
          (event_about normal "UpgradeStarted" "Upgrade"
            ("OdooUpgrade "
              ⧺ quote after.active_upgrade
              ⧺ " started; pods stay on the previous addons revision")
            after.active_upgrade)
        ++ (when (not (succeeded_upgrade == "")) (
              event_about normal "UpgradeSucceeded" "Upgrade"
                ("OdooUpgrade "
                  ⧺ quote succeeded_upgrade
                  ⧺ " succeeded; rolling out the new addons revision")
                succeeded_upgrade)
            ++ when
                (not (after.applied_addons_hash == "")
                  && not (after.applied_addons_hash == before.applied_addons_hash))
                (event normal "RolledOut" "Reconcile"
                  ("pods rolled out with addons revision " ⧺ short_id after.applied_addons_hash))))

addon_degraded_events : Option Condition → List StatusEvent
unfolding event
addon_degraded_events none = []
addon_degraded_events (some c) =
    (if c.reason == reason_module_conflict
      then event warning "ModuleConflict" "Sync" c.message
      else event warning "SyncFailed" "Sync" (c.reason ⧺ ": " ⧺ c.message))
    ∷ []

unfoldable pub addon_events : ConditionSet → OdooAddonStatus → OdooAddonStatus → List StatusEvent
unfolding event addon_degraded_events newly_true
addon_events m before after =
    when ((after.phase == phase_syncing) && not (before.phase == phase_syncing))
      (event normal "SyncStarted" "Sync" "sync Job started")
    ++ (when
          ((after.phase == phase_synced)
            && (not (before.phase == phase_synced)
                || not (before.cloned_commit == after.cloned_commit)))
          (event normal "SyncSucceeded" "Sync" (
            "synced commit "
            ⧺ short_id after.cloned_commit
            ⧺ "; modules: "
            ⧺ (if ltb 0 (length after.modules) then join ", " after.modules else "none reported")))
        ++ addon_degraded_events (newly_true m before.conditions after.conditions type_degraded))

unfoldable pub upgrade_events : OdooUpgradeStatus → OdooUpgradeStatus → List StatusEvent
unfolding event
upgrade_events before after =
    when ((after.phase == upgrade_phase_running) && not (before.phase == upgrade_phase_running))
      (event normal "Started" "Upgrade" ("upgrade Job " ⧺ after.job_name ⧺ " started"))
    ++ (when
          ((after.phase == upgrade_phase_succeeded)
            && not (before.phase == upgrade_phase_succeeded))
          (event normal "Succeeded" "Upgrade" "upgrade Job completed")
        ++ when
            ((after.phase == upgrade_phase_failed) && not (before.phase == upgrade_phase_failed))
            (event warning "Failed" "Upgrade"
              (if after.message == "" then "upgrade failed" else after.message)))

unfoldable pub backup_events : OdooBackupStatus → OdooBackupStatus → List StatusEvent
unfolding event
backup_events before after =
    when ((after.phase == backup_phase_running) && not (before.phase == backup_phase_running))
      (event normal "Started" "Backup" ("backup Job " ⧺ after.job_name ⧺ " started"))
    ++ (when
          ((after.phase == backup_phase_succeeded) && not (before.phase == backup_phase_succeeded))
          (event normal "Succeeded" "Backup" (
            if not (after.last_backup == "")
            then "backup Job completed: " ⧺ after.last_backup
            else "backup Job completed"))
        ++ when
            ((after.phase == backup_phase_failed)
              && (not (before.phase == backup_phase_failed)
                  || not (before.message == after.message)))
            (event warning "Failed" "Backup"
              (if after.message == "" then "backup failed" else after.message)))

abbrev pub event_note_max : ℕ
event_note_max = 1024

-- clipEventNote; a slice holds the whole characters among its bytes, which is what ToValidUTF8
-- leaves of the cut.
unfoldable pub clip_event_note : String → String
clip_event_note s = if ltb event_note_max (len s) then slice s 0 1021 ⧺ "..." else s

-- An event as the recorder is given it: the related object is an OdooUpgrade, or none.
pub record Recorded : Type 0 where
  pub type : EventType
  pub reason : String
  pub action : String
  pub note : String
  pub related : Option (String × String)

recorded : String → StatusEvent → Recorded
unfolding clip_event_note
recorded namespace e = record {
  type = e.type;
  reason = e.reason;
  action = e.action;
  note = clip_event_note e.message;
  related = if not (e.related_upgrade == "") then some (e.related_upgrade, namespace) else none;
}

-- emitEvents: the first argument says whether a recorder is configured
unfoldable pub emit_events : Bool → String → List StatusEvent → List Recorded
unfolding recorded
emit_events false namespace evs = []
emit_events true namespace evs = map (recorded namespace) evs
