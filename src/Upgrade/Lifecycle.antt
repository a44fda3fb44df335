-- ===== src/Upgrade/Lifecycle.antt =====
-- The stored OdooUpgrade under any number of passes, in any order and from any stale views, and
-- under its users' edits.
use odoo_k8_operator.Base.{
  ◌≤◌, true, List, Memᴰ, none, some, ◌≡◌, refl, sym, ◌∙◌, ap, subst, arith, eq_iff,
}
use odoo_k8_operator.Kube.{ObjectMeta, got}
use odoo_k8_operator.Kube.Retry.{Exchange}
use odoo_k8_operator.Machinery.{Machinery}
use odoo_k8_operator.Api.{OdooUpgrade, OdooUpgradeSpec}
use odoo_k8_operator.Phases.{upgrade_phase_running, upgrade_phase_pending}
use odoo_k8_operator.Upgrade.Status.{upgrade_phase_terminal}
use odoo_k8_operator.Upgrade.Reconcile.{UpgradeReads, upgrade_reconcile}
use odoo_k8_operator.Upgrade.Reconcile.Laws.{rank, IsLegal}
use odoo_k8_operator.Upgrade.Reconcile.Sound.{upgrade_reconcile-Wrote, upgrade_reconcile-Backfilled}

-- The API server takes an Update only of the version that it holds.
abbrev pub IsOptimistic : OdooUpgrade → List (Exchange OdooUpgrade) → Type 0
IsOptimistic stored xs =
    (x : Exchange OdooUpgrade) → Memᴰ x xs → x.update ≡ none → x.read ≡ got stored

-- One change of the stored object.
pub data Step (k : Machinery) (s t : OdooUpgrade) : Type 0 where
  backfill :
      (r : UpgradeReads) (cur : OdooUpgrade)
      → IsOptimistic s r.backfill
      → (upgrade_reconcile k r).backfilled ≡ some (cur, t)
      → Step k s t
  status_write :
      (r : UpgradeReads) (cur : OdooUpgrade)
      → IsOptimistic s r.writes
      → (upgrade_reconcile k r).written ≡ some (cur, t)
      → Step k s t
  -- A user's edit leaves the status, a subresource, alone.
  edit :
      (meta : ObjectMeta) (spec : OdooUpgradeSpec)
      → t ≡ record s { meta = meta; spec = spec }
      → Step k s t

pub data Reach (k : Machinery) (s : OdooUpgrade) : OdooUpgrade → Type 0 where
  here : Reach k s s
  next : {t u : OdooUpgrade} → Reach k s t → Step k t u → Reach k s u

got-injective : {a b : OdooUpgrade} → got a ≡ got b → a ≡ b
got-injective h = ground arith

module _ (k : Machinery) where
  -- A status write replaces the stored object by a legal successor.
  status_write-IsLegal :
      (s t : OdooUpgrade) (r : UpgradeReads) (cur : OdooUpgrade)
      → IsOptimistic s r.writes
      → (upgrade_reconcile k r).written ≡ some (cur, t)
      → IsLegal s t
  status_write-IsLegal s t r cur o h =
      let w = upgrade_reconcile-Wrote k r cur t h in
      let same : cur ≡ s = got-injective (sym w.was_read ∙ o w.exchange w.of_pass w.accepted) in
      subst (λ u. IsLegal u t) same w.legal

  backfill-phase :
      (s t : OdooUpgrade) (r : UpgradeReads) (cur : OdooUpgrade)
      → IsOptimistic s r.backfill
      → (upgrade_reconcile k r).backfilled ≡ some (cur, t)
      → t.status.phase ≡ s.status.phase
  backfill-phase s t r cur o h =
      let w = upgrade_reconcile-Backfilled k r cur t h in
      let same : cur ≡ s = got-injective (sym w.was_read ∙ o w.exchange w.of_pass w.accepted) in
      ap (λ (u : OdooUpgrade). u.status.phase) w.only_conditions
      ∙ ap (λ (u : OdooUpgrade). u.status.phase) same

  rank-IsLegal : (s t : OdooUpgrade) → IsLegal s t → rank s.status.phase ≤ rank t.status.phase
  unfolding upgrade_phase_terminal
  rank-IsLegal s t l = ground (
    arith,
    l.not_terminal,
    l.no_way_back,
    l.known_phase,
    eq_iff s.status.phase upgrade_phase_running,
    eq_iff t.status.phase upgrade_phase_pending,
    eq_iff t.status.phase upgrade_phase_running,
  )

  rank-Step : (s t : OdooUpgrade) → Step k s t → rank s.status.phase ≤ rank t.status.phase
  rank-Step s t (backfill r cur o h) = ground (arith, ap rank (backfill-phase s t r cur o h))
  rank-Step s t (status_write r cur o h) = rank-IsLegal s t (status_write-IsLegal s t r cur o h)
  rank-Step s t (edit meta spec e) = ground (arith, ap (λ (u : OdooUpgrade). rank u.status.phase) e)

  -- However many passes run, over whatever stale views and beside whatever edits of its users, an
  -- upgrade's phase only moves forward, from not started (rank 0) to Running (1) to Succeeded or
  -- Failed (2). The API server is taken to accept an Update only of the version that it holds.
  pub rank-Reach : (s t : OdooUpgrade) → Reach k s t → rank s.status.phase ≤ rank t.status.phase
  rank-Reach s t here = ground arith
  rank-Reach s t (next {t = u} p q) = ground (arith, rank-Reach s u p, rank-Step u t q)

  terminal-Step :
      (s t : OdooUpgrade)
      → Step k s t
      → upgrade_phase_terminal s.status.phase ≡ true
      → t.status.phase ≡ s.status.phase
  terminal-Step s t (backfill r cur o h) e = backfill-phase s t r cur o h
  terminal-Step s t (status_write r cur o h) e =
      ground (arith, (status_write-IsLegal s t r cur o h).not_terminal)
  terminal-Step s t (edit meta spec h) e = ap (λ (u : OdooUpgrade). u.status.phase) h

  -- Once an upgrade has Succeeded or Failed, it keeps that phase for ever, whatever passes, from
  -- whatever stale views, and edits of its users follow. The API server is taken to accept an Update
  -- only of the version that it holds.
  pub terminal-Reach :
      (s t : OdooUpgrade)
      → Reach k s t
      → upgrade_phase_terminal s.status.phase ≡ true
      → t.status.phase ≡ s.status.phase
  terminal-Reach s t here e = refl
  terminal-Reach s t (next {t = u} p q) e =
      let same = terminal-Reach s u p e in
      terminal-Step u t q (ap upgrade_phase_terminal same ∙ e) ∙ same
