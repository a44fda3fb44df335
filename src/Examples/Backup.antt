-- ===== src/Examples/Backup.antt =====
-- A backup to a volume.
use odoo_k8_operator.Base.{pos, String, true, false, [], none, some, ◌≡◌, refl}
use odoo_k8_operator.Api.{OdooBackup}
use odoo_k8_operator.Backup.Validate.{ParsedQuantity, quantity, backup_validate_spec}
use odoo_k8_operator.Backup.Validate.Laws.{IsValid, backup_validate_spec-IsValid}
use odoo_k8_operator.Examples.Samples.{shop_meta, shop_ref}

abbrev parse_quantity : String → ParsedQuantity
parse_quantity size = quantity true

abbrev pub nightly : OdooBackup
nightly = record {
  meta = shop_meta "nightly" 7;
  spec = record {
    instance_ref = shop_ref;
    database = "";
    include_filestore = some true;
    destination = record {
      pvc = some (record { claim_name = "backups"; sub_path = "shop/daily/" });
      s3 = none;
    };
    retention = some (pos 7);
    scratch_size = "10Gi";
    timeout_seconds = some (pos 3600);
    schedule = "0 3 * * *";
    suspend = false;
  };
  status = record {
    phase = "";
    job_name = "";
    cron_job_name = "";
    start_time = none;
    completion_time = none;
    last_schedule_time = none;
    last_successful_time = none;
    last_backup = "";
    message = "";
    observed_generation = 0;
    conditions = [];
  };
}

nightly_accepted : backup_validate_spec parse_quantity nightly ≡ none
unfolding backup_validate_spec
nightly_accepted = refl

backup_validate_spec-IsValid_example : IsValid parse_quantity nightly
backup_validate_spec-IsValid_example =
    backup_validate_spec-IsValid parse_quantity nightly nightly_accepted
