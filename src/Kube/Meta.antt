-- ===== src/Kube/Meta.antt =====
-- The package meta of apimachinery, which keeps a list of conditions, one to a type. The code is not
-- part of the operator: `ConditionSet` holds the functions, and `IsLawful` what their documentation
-- says of them.
pub mod Plain
use odoo_k8_operator.Base.{String, Option, none, some, List, ◌≡◌, ◌==◌, false}
use odoo_k8_operator.Kube.{Condition}

pub record ConditionSet : Type 0 where
  -- meta.SetStatusCondition
  pub set : List Condition → Condition → List Condition
  -- meta.FindStatusCondition
  pub find : List Condition → String → Option Condition
  -- meta.RemoveStatusCondition
  pub remove : List Condition → String → List Condition

-- Two conditions differ at most in the time of their last transition.
pub record SameFacts (a b : Condition) : Type 0 where
  pub type : a.type ≡ b.type
  pub status : a.status ≡ b.status
  pub reason : a.reason ≡ b.reason
  pub message : a.message ≡ b.message
  pub observed_generation : a.observed_generation ≡ b.observed_generation

pub record IsLawful (m : ConditionSet) : Type 0 where
  -- A condition that was set is found, with what was set.
  pub find-set_self :
      (cs : List Condition) (c : Condition)
      → (d : Condition) × (m.find (m.set cs c) c.type ≡ some d) × SameFacts d c
  pub find-set_ne :
      (cs : List Condition) (c : Condition) (t : String)
      → (c.type == t) ≡ false
      → m.find (m.set cs c) t ≡ m.find cs t
  -- Setting what is there already changes nothing, the time of the last transition included.
  pub set_same :
      (cs : List Condition) (c d : Condition)
      → m.find cs c.type ≡ some d
      → SameFacts d c
      → m.set cs c ≡ cs
  pub find-remove_self : (cs : List Condition) (t : String) → m.find (m.remove cs t) t ≡ none
  pub find-remove_ne :
      (cs : List Condition) (t u : String)
      → (t == u) ≡ false
      → m.find (m.remove cs t) u ≡ m.find cs u
