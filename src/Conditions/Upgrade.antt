-- ===== src/Conditions/Upgrade.antt =====
-- upgradeConditions of internal/controller/conditions.go.
use odoo_k8_operator.Base.{String, ◌⧺◌, ◌==◌, if◌then◌else◌, List, [], ◌∷◌}
use odoo_k8_operator.Kube.{Condition, cond_true, cond_false, cond_unknown}
use odoo_k8_operator.Api.{OdooUpgradeStatus}
use odoo_k8_operator.Api.Reasons.{
  type_succeeded, type_progressing, reason_complete, reason_running, reason_job_failed,
  reason_pending,
}
use odoo_k8_operator.Phases.{upgrade_phase_succeeded, upgrade_phase_running, upgrade_phase_failed}
use odoo_k8_operator.Conditions.{new_condition}

unfoldable pub upgrade_conditions : OdooUpgradeStatus → String → List Condition
unfolding new_condition
upgrade_conditions st reason =
    if st.phase == upgrade_phase_succeeded
    then new_condition type_succeeded cond_true reason_complete "upgrade Job completed"
      ∷ new_condition type_progressing cond_false reason_complete "upgrade finished"
      ∷ []
    else if st.phase == upgrade_phase_running
    then (let msg = "upgrade Job " ⧺ st.job_name ⧺ " is running" in
        new_condition type_succeeded cond_unknown reason_running msg
        ∷ new_condition type_progressing cond_true reason_running msg
        ∷ [])
    else if st.phase == upgrade_phase_failed
    then (let reason' = if reason == "" then reason_job_failed else reason in
        let msg = if st.message == "" then "upgrade failed" else st.message in
        new_condition type_succeeded cond_false reason' msg
        ∷ new_condition type_progressing cond_false reason' "upgrade stopped"
        ∷ [])
    else (let reason' = if reason == "" then reason_pending else reason in
        let msg = if st.message == "" then "waiting to start" else st.message in
        new_condition type_succeeded cond_unknown reason' msg
        ∷ new_condition type_progressing cond_false reason_pending msg
        ∷ [])
