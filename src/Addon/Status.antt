-- ===== src/Addon/Status.antt =====
-- writeAddonStatus, markFailed, pending and setPhase of internal/controller/odooaddon_controller.go. A
-- pass writes the status at most once, with no retry: the object is the one that it read.
use odoo_k8_operator.Base.{
  String, Bool, true, false, ◌==◌, if◌then◌else◌, List, [], Option, none, some,
}
use odoo_k8_operator.Kube.{ApiError, Time}
use odoo_k8_operator.Machinery.{Machinery}
use odoo_k8_operator.Api.{OdooAddon, OdooAddonStatus}
use odoo_k8_operator.Phases.{phase_failed, phase_pending, phase_synced}
use odoo_k8_operator.Conditions.{set_conditions}
use odoo_k8_operator.Conditions.Addon.{addon_conditions, kept_reason_message}
use odoo_k8_operator.Events.{Recorded, addon_events, emit_events}

abbrev pub AddonMutate : Type 0
AddonMutate = OdooAddonStatus → OdooAddonStatus

-- What a status write did.
pub record StatusWrite : Type 0 where
  pub written : Option OdooAddonStatus
  pub events : List Recorded
  pub error : Option ApiError

module _ (k : Machinery) where
  -- The status that writeAddonStatus makes of the old one.
  unfoldable pub addon_next_status : String → String → AddonMutate → OdooAddon → OdooAddonStatus
  unfolding set_conditions addon_conditions
  addon_next_status reason cond_msg mutate addon =
      let s = mutate addon.status in
      record s {
        conditions =
            set_conditions k.conditions s.conditions addon.meta.generation
              (addon_conditions s reason cond_msg);
      }

  settle_update : Bool → OdooAddon → OdooAddonStatus → Option ApiError → StatusWrite
  unfolding emit_events addon_events
  settle_update recorder addon after none = record {
    written = some after;
    events =
        emit_events recorder addon.meta.namespace (addon_events k.conditions addon.status after);
    error = none;
  }
  settle_update recorder addon after (some e) = record {
    written = none;
    events = [];
    error = some e;
  }

  -- writeAddonStatus; `update` is the answer of the status update.
  unfoldable pub write_addon_status :
      Bool → Option ApiError → OdooAddon → String → String → AddonMutate → StatusWrite
  unfolding addon_next_status settle_update
  write_addon_status recorder update addon reason cond_msg mutate =
      let after = addon_next_status reason cond_msg mutate addon in
      if k.addon_status_equal addon.status after
      then record { written = none; events = []; error = none }
      else settle_update recorder addon after update

-- The change of markFailed
unfoldable pub failed_status : Time → String → AddonMutate
failed_status now msg s = record s {
  phase = phase_failed;
  ready = false;
  message = msg;
  last_sync_time = elim s.last_sync_time [ some t ↦ some t | none ↦ some now ];
}

-- The change of finishFailedSyncJob
unfoldable pub failed_sync_status : Time → String → AddonMutate
failed_sync_status now msg s = record s {
  phase = phase_failed;
  ready = false;
  message = msg;
  last_sync_time = some now;
}

-- The change of recordSyncSuccess
unfoldable pub synced_status : Time → String → List String → AddonMutate
synced_status now commit modules s = record s {
  phase = phase_synced;
  ready = true;
  cloned_commit = commit;
  modules = modules;
  message = "";
  last_sync_time = some now;
}

-- The change of pending
unfoldable pub pending_status : AddonMutate
pending_status s = record s { phase = phase_pending; ready = false }

-- The change of setPhase
unfoldable pub phase_status : String → AddonMutate
phase_status phase s = if phase == "" then s else record s { phase = phase; message = "" }

-- The reason and the message of setPhase
unfoldable pub phase_reason : Machinery → String → OdooAddon → String × String
unfolding kept_reason_message
phase_reason k phase addon =
    if phase == "" then kept_reason_message k.conditions addon.status.conditions else ("", "")
