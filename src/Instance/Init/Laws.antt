-- ===== src/Instance/Init/Laws.antt =====
-- What the initialisation of the database decides, and when it starts.
use odoo_k8_operator.Base.{◌<◌, ltb, true, false, ◌≡◌, ◌⊎◌, inl, inr, arith, eq_iff, Bool-cases}
use odoo_k8_operator.Phases.{upgrade_phase_succeeded}
use odoo_k8_operator.Instance.Init.{InitInput, InitDecision, init_decide}

-- The facts by which a database counts as initialised.
pub data IsInitialized (i : InitInput) : Type 0 where
  -- It was before.
  already : i.initialized ≡ true → IsInitialized i
  -- Its OdooUpgrade Succeeded.
  by_upgrade : i.upgrade_exists ≡ true → i.upgrade_phase ≡ upgrade_phase_succeeded → IsInitialized i
  -- Pods serve it, and no OdooUpgrade was ever made.
  adopted : i.upgrade_exists ≡ false → 0 < i.live_replicas → IsInitialized i

pub record IsInitDecision (i : InitInput) (d : InitDecision) : Type 0 where
  -- What was initialised stays so, and its pods are not held back.
  pub stays : i.initialized ≡ true → (d.initialized ≡ true) × (d.pending ≡ false)
  pub justified : d.initialized ≡ true → IsInitialized i
  -- The pods are held back only before the initialisation, and never while they serve a database
  -- that no OdooUpgrade was made for.
  pub holds :
      d.pending ≡ true
      → (i.requested ≡ true)
        × (i.initialized ≡ false)
        × ((i.upgrade_exists ≡ true) ⊎ (ltb 0 i.live_replicas ≡ false))
  pub runs : (i.requested ≡ true) → (d.pending ≡ false) → d.initialized ≡ true
  pub ensures :
      d.ensure_upgrade ≡ true
      → (i.requested ≡ true) × (i.upgrade_exists ≡ false) × (d.upgrade_name ≡ i.upgrade_name)

pub init_decide-IsInitDecision : (i : InitInput) → IsInitDecision i (init_decide i)
unfolding init_decide
init_decide-IsInitDecision i = record {
  stays = λ h. (ground arith, ground arith);
  justified = λ h. elim (Bool-cases i.initialized) [
    | inl e ↦ already e
    | inr e ↦ elim (Bool-cases i.upgrade_exists) [
      | inl x ↦ by_upgrade x (ground (arith, eq_iff i.upgrade_phase upgrade_phase_succeeded))
      | inr x ↦ adopted x (ground arith)
    ]
  ];
  holds = λ h. (ground arith, ground arith, ground arith);
  runs = λ q h. ground arith;
  ensures = λ h. (ground arith, ground arith, ground arith);
}
