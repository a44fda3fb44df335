-- ===== src/Upgrade/Status.antt =====
-- upgradeWriteStatus, upgradeSetPending and upgradeBackfillConditions of internal/controller/
-- odooupgrade_controller.go.
use odoo_k8_operator.Base.{
  String, Bool, ◌&&◌, ◌||◌, ◌==◌, if◌then◌else◌, List, [], Option, none, some, length, ltb,
}
use odoo_k8_operator.Kube.Retry.{Exchange, Write, write_retrying}
use odoo_k8_operator.Machinery.{Machinery}
use odoo_k8_operator.Api.{OdooUpgrade, OdooUpgradeStatus}
use odoo_k8_operator.Phases.{
  upgrade_phase_pending, upgrade_phase_running, upgrade_phase_succeeded, upgrade_phase_failed,
}
use odoo_k8_operator.Conditions.{set_conditions}
use odoo_k8_operator.Conditions.Upgrade.{upgrade_conditions}
use odoo_k8_operator.Events.{Recorded, upgrade_events, emit_events}

-- upgradePhaseTerminal
unfoldable pub upgrade_phase_terminal : String → Bool
upgrade_phase_terminal phase = phase == upgrade_phase_succeeded || phase == upgrade_phase_failed

abbrev pub Mutate : Type 0
Mutate = OdooUpgradeStatus → OdooUpgradeStatus

module _ (k : Machinery) where
  -- The status after mutate: its generation, and the conditions that follow from it.
  unfoldable pub upgrade_next_status : String → Mutate → OdooUpgrade → OdooUpgradeStatus
  unfolding set_conditions upgrade_conditions
  upgrade_next_status reason mutate cur =
      let st = record (mutate cur.status) { observed_generation = cur.meta.generation } in
      record st {
        conditions =
            set_conditions k.conditions st.conditions cur.meta.generation
              (upgrade_conditions st reason);
      }

  -- The closure of upgradeWriteStatus: the object to store in place of `cur`, if any.
  unfoldable pub upgrade_write_decision :
      String → String → Mutate → OdooUpgrade → Option OdooUpgrade
  unfolding upgrade_phase_terminal
  upgrade_write_decision target reason mutate cur =
      if upgrade_phase_terminal cur.status.phase
      then none
      else if target == upgrade_phase_pending && cur.status.phase == upgrade_phase_running
      then none
      else (let next = upgrade_next_status reason mutate cur in
          if k.upgrade_status_equal cur.status next
          then none
          else some (record cur { status = next }))

  -- upgradeWriteStatus without its events
  unfoldable pub upgrade_write_status :
      String → String → Mutate → List (Exchange OdooUpgrade) → Write OdooUpgrade
  unfolding write_retrying
  upgrade_write_status target reason mutate exchanges =
      write_retrying k.again (upgrade_write_decision target reason mutate) exchanges

  -- The closure of upgradeBackfillConditions
  unfoldable pub upgrade_backfill_decision : OdooUpgrade → Option OdooUpgrade
  unfolding set_conditions upgrade_conditions
  upgrade_backfill_decision cur =
      if cur.status.phase == "" || ltb 0 (length cur.status.conditions)
      then none
      else some (record cur {
        status = record cur.status {
          conditions =
              set_conditions k.conditions cur.status.conditions cur.meta.generation
                (upgrade_conditions cur.status "");
        };
      })

  unfoldable pub upgrade_backfill_conditions : List (Exchange OdooUpgrade) → Write OdooUpgrade
  unfolding write_retrying
  upgrade_backfill_conditions exchanges = write_retrying k.again upgrade_backfill_decision exchanges

-- The events that upgradeWriteStatus emits after a real write.
unfoldable pub upgrade_write_events : Bool → Option (OdooUpgrade × OdooUpgrade) → List Recorded
unfolding emit_events upgrade_events
upgrade_write_events recorder none = []
upgrade_write_events recorder (some (cur, new)) =
    emit_events recorder new.meta.namespace (upgrade_events cur.status new.status)
