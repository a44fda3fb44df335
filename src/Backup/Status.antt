-- ===== src/Backup/Status.antt =====
-- backupWriteStatus and backupPhaseTerminal of internal/controller/odoobackup_controller.go.
use odoo_k8_operator.Base.{
  String, Bool, true, false, ◌&&◌, ◌||◌, ◌==◌, if◌then◌else◌, List, [], Memᴰ, Option, none, some,
  ◌≡◌, ◌≢◌, ◌⊎◌, sym, subst, arith, eq_iff,
}
use odoo_k8_operator.Kube.{got}
use odoo_k8_operator.Kube.Retry.{Exchange, Write, write_retrying}
use odoo_k8_operator.Kube.Retry.Laws.{write_retrying-Accepted}
use odoo_k8_operator.Machinery.{Machinery}
use odoo_k8_operator.Api.{OdooBackup, OdooBackupStatus}
use odoo_k8_operator.Phases.{
  backup_phase_pending, backup_phase_running, backup_phase_succeeded, backup_phase_failed,
  backup_phase_scheduled,
}
use odoo_k8_operator.Conditions.{set_conditions}
use odoo_k8_operator.Conditions.Backup.{backup_conditions}
use odoo_k8_operator.Events.{Recorded, backup_events, emit_events}

-- backupPhaseTerminal
unfoldable pub backup_phase_terminal : String → Bool
backup_phase_terminal phase = phase == backup_phase_succeeded || phase == backup_phase_failed

-- A one-shot backup that has finished.
unfoldable pub is_finished : OdooBackup → Bool
unfolding backup_phase_terminal
is_finished bk = (bk.spec.schedule == "") && backup_phase_terminal bk.status.phase

abbrev pub Mutate : Type 0
Mutate = OdooBackupStatus → OdooBackupStatus

-- The phases of a status write.
abbrev pub IsTarget : String → Type 0
IsTarget t =
    (t ≡ backup_phase_pending)
    ⊎ ((t ≡ backup_phase_running)
        ⊎ ((t ≡ backup_phase_scheduled) ⊎ (backup_phase_terminal t ≡ true)))

-- A stored object `new` in place of `cur`, as a status write may leave it.
pub record IsLegal (cur new : OdooBackup) : Type 0 where
  pub not_finished : is_finished cur ≡ false
  pub no_way_back :
      (cur.status.phase ≡ backup_phase_running) → (new.status.phase ≢ backup_phase_pending)
  pub same_meta : new.meta ≡ cur.meta
  pub same_spec : new.spec ≡ cur.spec
  pub known_phase : IsTarget new.status.phase

-- A write of a pass: the server held `cur` when it took `new`, and the step is legal.
pub record Wrote (xs : List (Exchange OdooBackup)) (cur new : OdooBackup) : Type 0 where
  pub exchange : Exchange OdooBackup
  pub of_pass : Memᴰ exchange xs
  pub was_read : exchange.read ≡ got cur
  pub accepted : exchange.update ≡ none
  pub legal : IsLegal cur new

module _ (k : Machinery) where
  -- The status after mutate: its generation, and the conditions that follow from it.
  unfoldable pub backup_next_status : String → Mutate → OdooBackup → OdooBackupStatus
  unfolding set_conditions backup_conditions
  backup_next_status reason mutate cur =
      let st = record (mutate cur.status) { observed_generation = cur.meta.generation } in
      record st {
        conditions =
            set_conditions k.conditions st.conditions cur.meta.generation
              (backup_conditions st reason);
      }

  -- The closure of backupWriteStatus: the object to store in place of `cur`, if any.
  unfoldable pub backup_write_decision : String → String → Mutate → OdooBackup → Option OdooBackup
  unfolding is_finished
  backup_write_decision target reason mutate cur =
      if is_finished cur
      then none
      else if target == backup_phase_pending && cur.status.phase == backup_phase_running
      then none
      else (let next = backup_next_status reason mutate cur in
          if k.backup_status_equal cur.status next
          then none
          else some (record cur { status = next }))

  -- backupWriteStatus without its events
  unfoldable pub backup_write_status :
      String → String → Mutate → List (Exchange OdooBackup) → Write OdooBackup
  unfolding write_retrying
  backup_write_status target reason mutate exchanges =
      write_retrying k.again (backup_write_decision target reason mutate) exchanges

  pub decision-phase :
      (target reason : String) (mutate : Mutate) (cur new : OdooBackup)
      → ((s : OdooBackupStatus) → (mutate s).phase ≡ target)
      → backup_write_decision target reason mutate cur ≡ some new
      → new.status.phase ≡ target
  unfolding backup_write_decision backup_next_status
  decision-phase target reason mutate cur new m h = ground (arith, m cur.status)

  decision-IsLegal :
      (target reason : String) (mutate : Mutate) (cur new : OdooBackup)
      → IsTarget target
      → ((s : OdooBackupStatus) → (mutate s).phase ≡ target)
      → backup_write_decision target reason mutate cur ≡ some new
      → IsLegal cur new
  unfolding backup_write_decision backup_next_status
  decision-IsLegal target reason mutate cur new t m h = record {
    not_finished = ground arith;
    no_way_back = λ running pending. ground (
      arith,
      m cur.status,
      eq_iff target backup_phase_pending,
      eq_iff cur.status.phase backup_phase_running,
    );
    same_meta = ground arith;
    same_spec = ground arith;
    known_phase = subst IsTarget (sym (decision-phase target reason mutate cur new m h)) t;
  }

  -- Whatever a status write stores is a legal step of the version that it read.
  pub backup_write_status-Wrote :
      (target reason : String) (mutate : Mutate) (xs : List (Exchange OdooBackup))
      (cur new : OdooBackup)
      → IsTarget target
      → ((s : OdooBackupStatus) → (mutate s).phase ≡ target)
      → (backup_write_status target reason mutate xs).written ≡ some (cur, new)
      → Wrote xs cur new × (new.status.phase ≡ target)
  unfolding backup_write_status
  backup_write_status-Wrote target reason mutate xs cur new t m h =
      let (x, i, a) =
        write_retrying-Accepted k.again (backup_write_decision target reason mutate) xs cur new h in
      (
        record {
          exchange = x;
          of_pass = i;
          was_read = a.was_read;
          accepted = a.accepted;
          legal = decision-IsLegal target reason mutate cur new t m a.decided;
        },
        decision-phase target reason mutate cur new m a.decided,
      )

-- The events that backupWriteStatus emits after a real write.
unfoldable pub backup_write_events : Bool → Option (OdooBackup × OdooBackup) → List Recorded
unfolding emit_events backup_events
backup_write_events recorder none = []
backup_write_events recorder (some (cur, new)) =
    emit_events recorder new.meta.namespace (backup_events cur.status new.status)
