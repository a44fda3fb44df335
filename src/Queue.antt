-- ===== src/Queue.antt =====
-- internal/controller/odoobackup_queue.go and odooupgrade_queue.go: which Pending backup or upgrade
-- of an instance may start its Job. The two files hold one algorithm over two kinds; it is written
-- once here, over what the algorithm reads of a kind (`Queued`), and taken at each kind. Backups
-- skip the scheduled ones; upgrades skip none.
pub mod Order
pub mod Decide
pub mod Exclusion
use odoo_k8_operator.Base.{
  String, Bool, true, false, List, [], ◌∷◌, ◌==◌, ◌<ˢ◌, ◌=ℕ◌, ltb, ◌||◌, not, if◌then◌else◌,
}
use odoo_k8_operator.Kube.{Time}
use odoo_k8_operator.Api.{OdooBackup, OdooUpgrade}

-- What the queue reads of an object of the kind.
pub record Queued {ℓ} (A : Type ℓ) : Type ℓ where
  pub name : A → String
  pub instance_name : A → String
  pub created : A → Time
  pub phase : A → String
  -- spec.schedule is set: the object does not take part.
  pub scheduled : A → Bool

pub record QueueDecision : Type 0 where
  pub may_start : Bool
  pub blocked_by : String

abbrev pub phase_pending : String
phase_pending = "Pending"

abbrev pub phase_running : String
phase_running = "Running"

module _ {ℓ} {A : Type ℓ} ⦃q : Queued A⦄ where
  -- Creation time first, then the name.
  pub older : A → A → Bool
  older a b =
      if not (q.created a =ℕ q.created b)
      then ltb (q.created a) (q.created b)
      else q.name a <ˢ q.name b

  -- The objects that the loop looks at: other ones, of the same instance, that take part.
  pub is_sibling : A → A → Bool
  is_sibling candidate other = not (
      q.name other == q.name candidate
      || not (q.instance_name other == q.instance_name candidate)
      || q.scheduled other)

  -- The switch on a sibling's phase.
  pub blocks : A → A → Bool
  unfolding older
  blocks candidate other =
      if q.phase other == phase_running
      then true
      else if q.phase other == "" || q.phase other == phase_pending
      then older other candidate
      else false

  -- The loop: the first sibling that blocks decides.
  unfoldable pub decide_start : A → List A → QueueDecision
  unfolding is_sibling blocks
  decide_start candidate [] = record { may_start = true; blocked_by = "" }
  decide_start candidate (other ∷ rest) =
      let later = decide_start candidate rest in
      if is_sibling candidate other
      then (if blocks candidate other
          then record { may_start = false; blocked_by = q.name other }
          else later)
      else later

instance abbrev pub backup_queued : Queued OdooBackup
backup_queued = record {
  name = λ b. b.meta.name;
  instance_name = λ b. b.spec.instance_ref.name;
  created = λ b. b.meta.created;
  phase = λ b. b.status.phase;
  scheduled = λ b. not (b.spec.schedule == "");
}

instance abbrev pub upgrade_queued : Queued OdooUpgrade
upgrade_queued = record {
  name = λ u. u.meta.name;
  instance_name = λ u. u.spec.instance_ref.name;
  created = λ u. u.meta.created;
  phase = λ u. u.status.phase;
  scheduled = λ u. false;
}

unfoldable pub backup_older : OdooBackup → OdooBackup → Bool
unfolding older
backup_older a b = older a b

unfoldable pub upgrade_older : OdooUpgrade → OdooUpgrade → Bool
unfolding older
upgrade_older a b = older a b

unfoldable pub backup_decide_start : OdooBackup → List OdooBackup → QueueDecision
unfolding decide_start
backup_decide_start candidate all = decide_start candidate all

unfoldable pub upgrade_decide_start : OdooUpgrade → List OdooUpgrade → QueueDecision
unfolding decide_start
upgrade_decide_start candidate all = decide_start candidate all
