-- ===== src/Upgrade/Reconcile/Laws.antt =====
-- What the writes of a pass over an OdooUpgrade may do to the stored object.
use odoo_k8_operator.Base.{
  ℕ, String, true, false, ◌==◌, if◌then◌else◌, List, Memᴰ, none, some, ◌≡◌, ◌≢◌, sym, subst, ◌⊎◌,
  arith, eq_iff,
}
use odoo_k8_operator.Kube.{got}
use odoo_k8_operator.Kube.Retry.{Exchange}
use odoo_k8_operator.Machinery.{Machinery}
use odoo_k8_operator.Api.{OdooUpgrade, OdooUpgradeStatus}
use odoo_k8_operator.Phases.{upgrade_phase_pending, upgrade_phase_running}
use odoo_k8_operator.Upgrade.Status.{
  Mutate, upgrade_phase_terminal, upgrade_next_status, upgrade_write_decision,
}

-- The phases in the order in which an upgrade goes through them.
abbrev pub rank : String → ℕ
rank phase =
    if upgrade_phase_terminal phase then 2 else if phase == upgrade_phase_running then 1 else 0

-- A stored object `new` in place of `cur`, as a status write may leave it.
pub record IsLegal (cur new : OdooUpgrade) : Type 0 where
  pub not_terminal : upgrade_phase_terminal cur.status.phase ≡ false
  pub no_way_back :
      (cur.status.phase ≡ upgrade_phase_running) → (new.status.phase ≢ upgrade_phase_pending)
  pub same_meta : new.meta ≡ cur.meta
  pub same_spec : new.spec ≡ cur.spec
  pub known_phase :
      (new.status.phase ≡ upgrade_phase_pending)
      ⊎ ((new.status.phase ≡ upgrade_phase_running)
          ⊎ (upgrade_phase_terminal new.status.phase ≡ true))

abbrev pub IsTarget : String → Type 0
IsTarget t =
    (t ≡ upgrade_phase_pending) ⊎ ((t ≡ upgrade_phase_running) ⊎ (upgrade_phase_terminal t ≡ true))

-- A write of the pass: the server held `cur` when it took `new`, and the step is legal.
pub record Wrote (xs : List (Exchange OdooUpgrade)) (cur new : OdooUpgrade) : Type 0 where
  pub exchange : Exchange OdooUpgrade
  pub of_pass : Memᴰ exchange xs
  pub was_read : exchange.read ≡ got cur
  pub accepted : exchange.update ≡ none
  pub legal : IsLegal cur new

-- A backfill: the server held `cur` when it took `new`, which differs in its conditions alone.
pub record Backfilled (xs : List (Exchange OdooUpgrade)) (cur new : OdooUpgrade) : Type 0 where
  pub exchange : Exchange OdooUpgrade
  pub of_pass : Memᴰ exchange xs
  pub was_read : exchange.read ≡ got cur
  pub accepted : exchange.update ≡ none
  pub only_conditions :
      new ≡ record cur { status = record cur.status { conditions = new.status.conditions } }

module _ (k : Machinery) where
  pub decision-phase :
      (target reason : String) (mutate : Mutate) (cur new : OdooUpgrade)
      → ((s : OdooUpgradeStatus) → (mutate s).phase ≡ target)
      → upgrade_write_decision k target reason mutate cur ≡ some new
      → new.status.phase ≡ target
  unfolding upgrade_write_decision upgrade_next_status
  decision-phase target reason mutate cur new m h = ground (arith, m cur.status)

  pub decision-IsLegal :
      (target reason : String) (mutate : Mutate) (cur new : OdooUpgrade)
      → IsTarget target
      → ((s : OdooUpgradeStatus) → (mutate s).phase ≡ target)
      → upgrade_write_decision k target reason mutate cur ≡ some new
      → IsLegal cur new
  unfolding upgrade_write_decision upgrade_next_status
  decision-IsLegal target reason mutate cur new t m h = record {
    not_terminal = ground arith;
    no_way_back = λ running pending. ground (
      arith,
      m cur.status,
      eq_iff target upgrade_phase_pending,
      eq_iff cur.status.phase upgrade_phase_running,
    );
    same_meta = ground arith;
    same_spec = ground arith;
    known_phase = subst IsTarget (sym (decision-phase target reason mutate cur new m h)) t;
  }
