-- ===== src/Conditions.antt =====
-- internal/controller/conditions.go: status conditions, and how a status write merges them.
pub mod Upgrade
pub mod Backup
pub mod Addon
pub mod Instance
pub mod Laws
pub mod Status
pub mod Ready
pub mod Told
use Prim.Native.String.{slice, len}
use odoo_k8_operator.Base.{ℕ, String, List, [], ◌∷◌, Option, none, some, ltb, if◌then◌else◌}
use odoo_k8_operator.Kube.{Condition, CondStatus}
use odoo_k8_operator.Kube.Meta.{ConditionSet}

-- newCondition; the zero time is 0, and meta.SetStatusCondition puts the time in.
unfoldable pub new_condition : String → CondStatus → String → String → Condition
new_condition type status reason message = record {
  type = type;
  status = status;
  reason = reason;
  message = message;
  observed_generation = 0;
  last_transition = 0;
}

-- setConditions
unfoldable pub set_conditions : ConditionSet → List Condition → ℕ → List Condition → List Condition
set_conditions m conds gen [] = conds
set_conditions m conds gen (c ∷ want) =
    set_conditions m (m.set conds (record c { observed_generation = gen })) gen want

-- shortIDLen
abbrev pub short_id_len : ℕ
short_id_len = 12

-- shortID; commit ids and hashes are ASCII, so the first twelve bytes are twelve characters.
unfoldable pub short_id : String → String
short_id id = if ltb short_id_len (len id) then slice id 0 short_id_len else id
