-- ===== src/Conditions/Addon.antt =====
-- addonConditions and what stands beside it in internal/controller/conditions.go.
use Prim.Native.String.{find, len}
use odoo_k8_operator.Base.{
  String, ◌⧺◌, ◌==◌, if◌then◌else◌, List, [], ◌∷◌, none, some, decimal, length, leb, Bool,
}
use odoo_k8_operator.Kube.{Condition, cond_true, cond_false}
use odoo_k8_operator.Kube.Meta.{ConditionSet}
use odoo_k8_operator.Api.{OdooAddonStatus}
use odoo_k8_operator.Api.Reasons.{
  type_ready, type_progressing, type_degraded, reason_synced, reason_syncing, reason_as_expected,
  reason_sync_failed, reason_pending, reason_module_conflict,
}
use odoo_k8_operator.Phases.{phase_synced, phase_syncing, phase_failed, phase_pending}
use odoo_k8_operator.Conditions.{new_condition, short_id}

-- addonModuleConflictMarker
abbrev pub addon_module_conflict_marker : String
addon_module_conflict_marker = "is already provided by addon"

-- strings.Contains: a text that is not found is found past the end.
abbrev pub contains : String → String → Bool
contains s t = leb (find s t) (len s)

-- addonFailureReason
unfoldable pub addon_failure_reason : String → String
addon_failure_reason logs =
    if contains logs addon_module_conflict_marker
    then reason_module_conflict
    else reason_sync_failed

-- keptReasonMessage
unfoldable pub kept_reason_message : ConditionSet → List Condition → String × String
kept_reason_message m conds = elim (m.find conds type_ready) [
  | none ↦ ("", "")
  | some c ↦ (c.reason, c.message)
]

no_sync_errors : Condition
unfolding new_condition
no_sync_errors = new_condition type_degraded cond_false reason_as_expected "no sync errors"

unfoldable pub addon_conditions : OdooAddonStatus → String → String → List Condition
unfolding new_condition no_sync_errors
addon_conditions st reason msg =
    if st.phase == phase_synced
    then new_condition type_ready cond_true reason_synced (
        "synced commit "
        ⧺ short_id st.cloned_commit
        ⧺ " with "
        ⧺ decimal (length st.modules)
        ⧺ " module(s)")
      ∷ new_condition type_progressing cond_false reason_synced "no sync in progress"
      ∷ no_sync_errors
      ∷ []
    else if st.phase == phase_syncing
    then new_condition type_ready cond_false reason_syncing "waiting for the sync Job"
      ∷ new_condition type_progressing cond_true reason_syncing "sync Job is running"
      ∷ no_sync_errors
      ∷ []
    else if st.phase == phase_failed
    then (let reason' = if reason == "" then reason_sync_failed else reason in
        let msg' = if msg == "" then st.message else msg in
        new_condition type_ready cond_false reason' msg'
        ∷ new_condition type_progressing cond_false reason' "not syncing; the operator retries"
        ∷ new_condition type_degraded cond_true reason' msg'
        ∷ [])
    else if st.phase == phase_pending
    then (let reason' = if reason == "" then reason_pending else reason in
        let msg' = if msg == "" then "waiting for the instance" else msg in
        new_condition type_ready cond_false reason' msg'
        ∷ new_condition type_progressing cond_false reason_pending msg'
        ∷ no_sync_errors
        ∷ [])
    else new_condition type_ready cond_false reason_pending "not reconciled yet"
      ∷ new_condition type_progressing cond_false reason_pending "not reconciled yet"
      ∷ no_sync_errors
      ∷ []
