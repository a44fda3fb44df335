-- ===== src/Conditions/Backup.antt =====
-- backupConditions of internal/controller/odoobackup_status.go.
use odoo_k8_operator.Base.{String, ◌⧺◌, ◌==◌, not, if◌then◌else◌, is_some, List, [], ◌∷◌}
use odoo_k8_operator.Kube.{Condition, cond_true, cond_false, cond_unknown}
use odoo_k8_operator.Api.{OdooBackupStatus}
use odoo_k8_operator.Api.Reasons.{
  type_succeeded, type_progressing, type_degraded, reason_complete, reason_running,
  reason_job_failed, reason_pending, reason_as_expected, reason_scheduled,
}
use odoo_k8_operator.Phases.{
  backup_phase_succeeded, backup_phase_running, backup_phase_failed, backup_phase_scheduled,
}
use odoo_k8_operator.Conditions.{new_condition}

no_backup_errors : Condition
unfolding new_condition
no_backup_errors = new_condition type_degraded cond_false reason_as_expected "no backup errors"

unfoldable pub backup_conditions : OdooBackupStatus → String → List Condition
unfolding new_condition no_backup_errors
backup_conditions st reason =
    if st.phase == backup_phase_succeeded
    then (let msg =
          if not (st.last_backup == "")
          then "backup completed: " ⧺ st.last_backup
          else "backup completed" in
        new_condition type_succeeded cond_true reason_complete msg
        ∷ new_condition type_progressing cond_false reason_complete "backup finished"
        ∷ no_backup_errors
        ∷ [])
    else if st.phase == backup_phase_running
    then (let msg = "backup Job " ⧺ st.job_name ⧺ " is running" in
        new_condition type_succeeded cond_unknown reason_running msg
        ∷ new_condition type_progressing cond_true reason_running msg
        ∷ no_backup_errors
        ∷ [])
    else if st.phase == backup_phase_failed
    then (let reason' = if reason == "" then reason_job_failed else reason in
        let msg = if st.message == "" then "backup failed" else st.message in
        new_condition type_succeeded cond_false reason' msg
        ∷ new_condition type_progressing cond_false reason' "backup stopped"
        ∷ new_condition type_degraded cond_true reason' msg
        ∷ [])
    else if st.phase == backup_phase_scheduled
    then ((if is_some st.last_successful_time
          then new_condition type_succeeded cond_true reason_complete
              "last scheduled backup succeeded"
          else new_condition type_succeeded cond_unknown reason_scheduled
              "no scheduled backup has completed yet")
        ∷ new_condition type_progressing cond_false reason_scheduled
            ("CronJob " ⧺ st.cron_job_name ⧺ " runs the backups")
        ∷ no_backup_errors
        ∷ [])
    else (let reason' = if reason == "" then reason_pending else reason in
        let msg = if st.message == "" then "waiting to start" else st.message in
        new_condition type_succeeded cond_unknown reason' msg
        ∷ new_condition type_progressing cond_false reason_pending msg
        ∷ no_backup_errors
        ∷ [])
