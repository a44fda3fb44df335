-- ===== src/Examples/Runs.antt =====
-- A one-shot and a scheduled backup of the shop, and their passes.
use odoo_k8_operator.Base.{pos, Option, true, false, [], ◌∷◌, none, some, ◌≡◌, inl, refl}
use odoo_k8_operator.Kube.{got, refused, not_found}
use odoo_k8_operator.Kube.Batch.{PodSpec, NewCronJob}
use odoo_k8_operator.Api.{OdooBackup}
use odoo_k8_operator.Backup.Validate.{quantity}
use odoo_k8_operator.Backup.Settings.{BackupTools}
use odoo_k8_operator.Backup.Job.{build_backup_pod_spec}
use odoo_k8_operator.Backup.Pass.{BackupReads}
use odoo_k8_operator.Backup.Schedule.{backup_apply_cron_job}
use odoo_k8_operator.Backup.Schedule.Apply.{Ensures, backup_apply_cron_job-Ensures}
use odoo_k8_operator.Backup.Passes.{IsSafe}
use odoo_k8_operator.Backup.Reconcile.{backup_reconcile}
use odoo_k8_operator.Backup.Reconcile.Safe.{backup_reconcile-IsSafe}
use odoo_k8_operator.Backup.Lifecycle.{Reach, here, next, edit, finished-Reach}
use odoo_k8_operator.Examples.Backup.{nightly}
use odoo_k8_operator.Examples.Samples.{machinery, no_logs, shop}

abbrev tools : BackupTools
tools = record {
  parse_quantity = λ size. quantity true;
  backup_image_env = "";
  s3_image_env = "";
  marshal = λ spec. some "{}";
  labels_equal = λ a b. true;
}

abbrev once : OdooBackup
once = record nightly { spec = record nightly.spec { schedule = "" } }

abbrev reads : OdooBackup → BackupReads
reads bk = record {
  backup = got bk;
  instance_reply = got shop;
  siblings = got (bk ∷ []);
  pods = got [];
  set_owner = none;
  create = none;
  job = refused (not_found "no job");
  cron = refused (not_found "no cron job");
  create_cron = none;
  update_cron = none;
  logs = no_logs;
  writes = record { read = got bk; update = none } ∷ [];
  recorder = true;
  now = 100;
}

backup_reconcile-IsSafe_example :
    IsSafe machinery tools (reads once) (backup_reconcile machinery tools (reads once))
backup_reconcile-IsSafe_example = backup_reconcile-IsSafe machinery tools (reads once)

abbrev succeeded : OdooBackup
succeeded = record once { status = record once.status { phase = "Succeeded" } }

-- A user asks for a longer retention of a backup that has finished.
abbrev edited : OdooBackup
edited = record succeeded { spec = record once.spec { retention = none } }

editing : Reach machinery tools succeeded edited
editing = next here (edit succeeded.meta (record once.spec { retention = none }) refl refl)

finished-Reach_example : edited.status ≡ succeeded.status
finished-Reach_example = finished-Reach machinery tools succeeded edited editing refl (inl refl)

-- The value of an option that has one.
abbrev or_else : {A : Type 0} → Option A → A → A
or_else none a = a
or_else (some a) b = a

abbrev empty_pod : PodSpec
empty_pod = record {
  restart_policy = "";
  automount_token = true;
  security = record {
    run_as_non_root = false;
    run_as_user = 0;
    run_as_group = some 0;
    fs_group = 0;
    seccomp = "";
  };
  init_containers = [];
  containers = [];
  volumes = [];
  node_selector = [];
}

abbrev pod : PodSpec
pod = or_else (build_backup_pod_spec tools once shop "shop" "") empty_pod

abbrev cron : NewCronJob
cron = record {
  name = "nightly-sched";
  namespace = "erp";
  labels = [];
  annotations = ("odoo.operator.io/backup-hash", "0011aabb") ∷ [];
  spec = record {
    schedule = "0 3 * * *";
    starting_deadline = 300;
    concurrency = "Forbid";
    suspend = false;
    history_limit = 3;
    template_labels = [];
    job = record {
      backoff_limit = 0;
      active_deadline = pos 3600;
      ttl = 86400;
      template_labels = [];
      pod = pod;
    };
  };
}

backup_apply_cron_job-Ensures_example :
    Ensures machinery tools
      (reads nightly)
      cron
      (reads nightly).cron
      (backup_apply_cron_job machinery tools (reads nightly) cron (reads nightly).cron)
backup_apply_cron_job-Ensures_example =
    backup_apply_cron_job-Ensures machinery tools (reads nightly) (λ l. refl) cron
      (reads nightly).cron
