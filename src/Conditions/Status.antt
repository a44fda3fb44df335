-- ===== src/Conditions/Status.antt =====
-- What the conditions of an upgrade and of an addon say after a status write.
use odoo_k8_operator.Base.{
  ℕ, String, Bool, true, false, ◌&&◌, not, ◌==◌, List, [], ◌∷◌, Memᴰ, Option, none, some, ◌≡◌, ◌↔◌,
  refl, sym, ◌∙◌, ap, arith, eq_iff,
}
use odoo_k8_operator.Kube.{Condition, cond_true}
use odoo_k8_operator.Kube.Meta.{ConditionSet, IsLawful}
use odoo_k8_operator.Api.{OdooUpgradeStatus, OdooAddonStatus}
use odoo_k8_operator.Api.Reasons.{type_succeeded, type_ready}
use odoo_k8_operator.Phases.{upgrade_phase_succeeded, phase_synced}
use odoo_k8_operator.Conditions.{set_conditions, new_condition}
use odoo_k8_operator.Conditions.Laws.{distinct, set_conditions-Holds}
use odoo_k8_operator.Conditions.Upgrade.{upgrade_conditions}
use odoo_k8_operator.Conditions.Instance.{is_true}
use odoo_k8_operator.Conditions.Addon.{addon_conditions}

-- The list has a condition of the type, which is True exactly if the statement holds.
pub record Tells (want : List Condition) (type : String) (P : Type 0) : Type 0 where
  condition : Condition
  is_in : Memᴰ condition want
  of_type : condition.type ≡ type
  agrees : (condition.status ≡ cond_true) ↔ P

-- After the write, the stored list tells it.
pub record IsTold (m : ConditionSet) (cs : List Condition) (type : String) (P : Type 0)
    : Type 0 where
  pub stored : Condition
  pub found : m.find cs type ≡ some stored
  pub agrees : (stored.status ≡ cond_true) ↔ P

pub Tells-IsTold :
    {P : Type 0}
    → (m : ConditionSet) (law : IsLawful m) (gen : ℕ) (cs want : List Condition) (t : String)
    → distinct want ≡ true
    → Tells want t P
    → IsTold m (set_conditions m cs gen want) t P
Tells-IsTold m law gen cs want t d x =
    let h = set_conditions-Holds m law gen cs want d x.condition x.is_in in
    record {
      stored = h.stored;
      found = ap (m.find (set_conditions m cs gen want)) (sym x.of_type) ∙ h.found;
      agrees = (λ e. x.agrees.0 (sym h.same.status ∙ e), λ p. h.same.status ∙ x.agrees.1 p);
    }

unfoldable pub same_bool : Bool → Bool → Bool
same_bool true b = b
same_bool false b = not b

unfoldable pub first : List Condition → Option Condition
first [] = none
first (c ∷ cs) = some c

-- The type and whether it is True, of the first condition.
unfoldable pub first_says : List Condition → String → Bool → Bool
unfolding first same_bool
first_says cs t truth = elim (first cs) [
  | none ↦ false
  | some c ↦ (c.type == t) && same_bool (is_true c.status) truth
]

pub first-Tells :
    {P : Type 0}
    → (want : List Condition) (t : String) (truth : Bool) → first_says want t truth ≡ true
    → ((truth ≡ true) ↔ P)
    → Tells want t P
unfolding first_says first
first-Tells [] t truth h p = ground arith
first-Tells (c ∷ cs) t truth h p = record {
  condition = c;
  is_in = Memᴰ.head refl;
  of_type = ground (arith, eq_iff c.type t);
  agrees = (λ e. p.0 (ground arith), λ x. ground (arith, p.1 x));
}

upgrade_conditions-distinct :
    (st : OdooUpgradeStatus) (reason : String) → distinct (upgrade_conditions st reason) ≡ true
unfolding upgrade_conditions distinct new_condition
upgrade_conditions-distinct st reason = ground arith

upgrade_conditions-first :
    (st : OdooUpgradeStatus) (reason : String)
    → first_says (upgrade_conditions st reason) type_succeeded (st.phase == upgrade_phase_succeeded)
      ≡ true
unfolding upgrade_conditions new_condition first_says first
upgrade_conditions-first st reason = ground arith

pub upgrade_conditions-IsTold :
    (m : ConditionSet) (law : IsLawful m) (gen : ℕ) (cs : List Condition) (st : OdooUpgradeStatus)
    (reason : String)
    → IsTold m
        (set_conditions m cs gen (upgrade_conditions st reason))
        type_succeeded
        (st.phase ≡ upgrade_phase_succeeded)
upgrade_conditions-IsTold m law gen cs st reason =
    Tells-IsTold m law gen cs _ _ (upgrade_conditions-distinct st reason) (
      first-Tells _ _ _ (upgrade_conditions-first st reason)
        (eq_iff st.phase upgrade_phase_succeeded))

addon_conditions-distinct :
    (st : OdooAddonStatus) (reason msg : String) → distinct (addon_conditions st reason msg) ≡ true
unfolding addon_conditions distinct new_condition
addon_conditions-distinct st reason msg = ground arith

addon_conditions-first :
    (st : OdooAddonStatus) (reason msg : String)
    → first_says (addon_conditions st reason msg) type_ready (st.phase == phase_synced) ≡ true
unfolding addon_conditions new_condition first_says first
addon_conditions-first st reason msg = ground arith

pub addon_conditions-IsTold :
    (m : ConditionSet) (law : IsLawful m) (gen : ℕ) (cs : List Condition) (st : OdooAddonStatus)
    (reason msg : String)
    → IsTold m
        (set_conditions m cs gen (addon_conditions st reason msg))
        type_ready
        (st.phase ≡ phase_synced)
addon_conditions-IsTold m law gen cs st reason msg =
    Tells-IsTold m law gen cs _ _ (addon_conditions-distinct st reason msg)
      (first-Tells _ _ _ (addon_conditions-first st reason msg) (eq_iff st.phase phase_synced))
