-- ===== src/Examples/Texts.antt =====
-- Names, conditions and events at concrete values.
use odoo_k8_operator.Base.{List, some, ◌≤◌, String, true, len, [], ◌∷◌, Memᴰ, none, ◌≡◌, refl, pos}
use odoo_k8_operator.Kube.Meta.Plain.{plain, plain-IsLawful}
use odoo_k8_operator.Api.{OdooUpgradeStatus, OdooAddonStatus}
use odoo_k8_operator.Api.Reasons.{type_succeeded, type_ready}
use odoo_k8_operator.Phases.{upgrade_phase_succeeded, phase_synced}
use odoo_k8_operator.Names.{
  upgrade_job_name, upgrade_label_value, backup_job_name, backup_label_value, backup_cron_job_name,
  gate_upgrade_name,
}
use odoo_k8_operator.Names.Bounds.{derived_names_fit}
use odoo_k8_operator.Conditions.{set_conditions}
use odoo_k8_operator.Conditions.Upgrade.{upgrade_conditions}
use odoo_k8_operator.Conditions.Addon.{addon_conditions}
use odoo_k8_operator.Conditions.Status.{IsTold}
use odoo_k8_operator.Conditions.Instance.{InstanceCondFacts, instance_conditions}
use odoo_k8_operator.Conditions.Ready.{serves}
use odoo_k8_operator.Conditions.Told.{set_conditions-AreTold}
use odoo_k8_operator.Shell.{sh_join}
use odoo_k8_operator.Shell.Words.{sh_words}
use odoo_k8_operator.Shell.Quoting.{sh_words-sh_join}
use odoo_k8_operator.Events.{StatusEvent, normal, Recorded, clip_event_note, emit_events}
use odoo_k8_operator.Events.Laws.{emit_events-fit}

abbrev long_name : String
long_name = "a-name-of-an-instance-that-is-a-good-deal-longer-than-most-of-them-are"

derived_names_fit_example :
    (len (upgrade_job_name long_name) ≤ 63)
    × (len (upgrade_label_value long_name) ≤ 63)
    × (len (backup_job_name long_name) ≤ 63)
    × (len (backup_label_value long_name) ≤ 63)
    × (len (backup_cron_job_name long_name) ≤ 52)
    × (len (gate_upgrade_name long_name "0123456789") ≤ 63)
derived_names_fit_example = derived_names_fit long_name "0123456789"

abbrev upgrade_status : String → OdooUpgradeStatus
upgrade_status phase = record {
  phase = phase;
  job_name = "first-run";
  message = "";
  start_time = none;
  completion_time = none;
  observed_generation = 1;
  conditions = [];
}

abbrev done : OdooUpgradeStatus
done = upgrade_status "Succeeded"

abbrev synced : OdooAddonStatus
synced = record {
  ready = true;
  phase = "Synced";
  cloned_commit = "89abcdef";
  last_sync_time = none;
  modules = "web" ∷ [];
  message = "";
  conditions = [];
}

abbrev upgrading_instance : InstanceCondFacts
upgrading_instance = record {
  phase = "Upgrading";
  deployment_found = true;
  ready_replicas = pos 2;
  desired_replicas = pos 2;
  active_upgrade = "gate-1";
  upgrade_message = "";
  init_upgrade = "";
  init_message = "";
  err_reason = "";
  err_message = "";
}

set_conditions-AreTold_example :
    IsTold
      (plain 7)
      (set_conditions (plain 7) [] 1 (upgrade_conditions done ""))
      type_succeeded
      (done.phase ≡ upgrade_phase_succeeded)
    × IsTold
        (plain 7)
        (set_conditions (plain 7) [] 1 (addon_conditions synced "" ""))
        type_ready
        (synced.phase ≡ phase_synced)
    × IsTold
        (plain 7)
        (set_conditions (plain 7) [] 1 (instance_conditions upgrading_instance))
        type_ready
        (serves upgrading_instance ≡ true)
set_conditions-AreTold_example =
    set_conditions-AreTold (plain 7) 1 [] done synced upgrading_instance "" "" (plain-IsLawful 7)

abbrev started : StatusEvent
started = record {
  type = normal;
  reason = "Started";
  action = "Upgrade";
  message = "upgrade Job first-run started";
  related_upgrade = "";
}

abbrev recorded_start : Recorded
recorded_start = record {
  type = normal;
  reason = "Started";
  action = "Upgrade";
  note = "upgrade Job first-run started";
  related = none;
}

start_recorded : Memᴰ recorded_start (emit_events true "erp" (started ∷ []))
unfolding emit_events clip_event_note
start_recorded = Memᴰ.head refl

emit_events-fit_example : len recorded_start.note ≤ 1024
emit_events-fit_example = emit_events-fit true "erp" (started ∷ []) recorded_start start_recorded

abbrev odd_words : List String
odd_words = "odoo" ∷ "it's" ∷ "" ∷ "two words" ∷ []

sh_words-sh_join_example : sh_words (sh_join odd_words) ≡ some odd_words
sh_words-sh_join_example = sh_words-sh_join odd_words
