-- ===== src/Backup/Job.antt =====
-- internal/controller/odoobackup_job.go: the pod of a backup, the
-- Job of a one-shot backup and the CronJob of a scheduled one.
pub mod Pod
pub mod Reschedule
use odoo_k8_operator.Base.{
  ℕ, ℤ, pos, ◌<ℤ◌, String, Bool, true, false, ◌&&◌, not, ◌⧺◌, ◌==◌, if◌then◌else◌, List, [], ◌∷◌,
  ◌++◌, Option, none, some, signed, fnv32a, hex8,
}
use odoo_k8_operator.Names.{
  backup_job_name, backup_cron_job_name, backup_label_value, data_pvc_name,
}
use odoo_k8_operator.Kube.Batch.{
  Labels, EnvVar, plain, from_secret, VolumeMount, VolumeSource, claim, empty_dir, sized_dir,
  Volume, Container, ContainerSecurity, PodSecurity, PodSpec, NewJob, JobSpec, NewCronJob,
}
use odoo_k8_operator.Api.{OdooBackup, BackupPvcDestination, BackupS3Destination, BackupDestination}
use odoo_k8_operator.Api.Instance.{OdooInstance, OdooInstanceSpec}
use odoo_k8_operator.Upgrade.{read_write_once, read_write_many}
use odoo_k8_operator.Upgrade.Job.{label_managed_by}
use odoo_k8_operator.Backup.Validate.{ParsedQuantity, not_quantity, quantity}
use odoo_k8_operator.Backup.Script.{
  env_backup_database, env_backup_retention, env_backup_bucket, env_backup_prefix,
  env_backup_endpoint, env_backup_force_path, backup_pvc_dir, backup_scratch_dir,
  build_backup_pvc_script, build_backup_dump_script, build_backup_upload_script,
}
use odoo_k8_operator.Backup.Settings.{
  BackupTools, backup_label_key, backup_hash_annotation, backup_default_timeout,
  backup_default_scratch, backup_image, backup_s3_image, backup_labels, backup_database,
  backup_include_filestore, backup_retention, backup_timeout, quantity_or_default,
  backup_scratch_quantity, backup_access_mode, backup_needs_node_pin, secret_env, when,
  backup_pg_env, backup_s3_env,
}

-- backupContainerSecurity
backup_container_security : ContainerSecurity
backup_container_security = record {
  allow_privilege_escalation = false;
  read_only_root = true;
  non_root = true;
  dropped = "ALL" ∷ [];
}

-- backupPodSecurity
backup_pod_security : PodSecurity
backup_pod_security = record {
  run_as_non_root = true;
  run_as_user = 70;
  run_as_group = some 70;
  fs_group = 100;
  seccomp = "RuntimeDefault";
}

mount : String → String → String → Bool → VolumeMount
mount name path sub_path read_only = record {
  name = name;
  mount_path = path;
  sub_path = sub_path;
  read_only = read_only;
}

volume : String → VolumeSource → Volume
volume name source = record { name = name; source = source }

tmp_mount : VolumeMount
unfolding mount
tmp_mount = mount "tmp" "/tmp" "" false

scratch_mount : VolumeMount
unfolding mount
scratch_mount = mount "scratch" backup_scratch_dir "" false

data_mount : Bool → List VolumeMount
unfolding mount
data_mount include_filestore =
    if include_filestore then mount "data" "/var/lib/odoo" "" true ∷ [] else []

-- The volumes of both kinds of destination.
common_volumes : Bool → String → List Volume
unfolding volume
common_volumes include_filestore instance_name =
    (volume "tmp" empty_dir ∷ [])
    ++ (if include_filestore
        then volume "data" (claim (data_pvc_name instance_name) true) ∷ []
        else [])

container : String → String → String → List EnvVar → List VolumeMount → Container
unfolding backup_container_security
container name image script env mounts = record {
  name = name;
  image = image;
  command = "/bin/sh" ∷ "-c" ∷ script ∷ [];
  args = [];
  env = env;
  mounts = mounts;
  security = backup_container_security;
}

-- The volumes and containers that a destination calls for.
record Parts : Type 0 where
  volumes : List Volume
  init_containers : List Container
  containers : List Container

pvc_parts : BackupTools → OdooBackup → OdooInstance → String → BackupPvcDestination → Parts
unfolding volume mount tmp_mount data_mount container
pvc_parts t bk inst database pvc =
    let fs = backup_include_filestore bk in
    record {
      volumes = volume "destination" (claim pvc.claim_name false) ∷ [];
      init_containers = [];
      containers =
          container "backup" (backup_image t) (build_backup_pvc_script fs)
            (backup_pg_env inst.spec database
              ++ (plain env_backup_database database
                  ∷ plain env_backup_retention (signed (backup_retention bk))
                  ∷ []))
            (data_mount fs
              ++ (mount "destination" backup_pvc_dir pvc.sub_path false ∷ tmp_mount ∷ []))
          ∷ [];
    }

s3_parts : BackupTools → OdooBackup → OdooInstance → String → BackupS3Destination → Parts
unfolding volume tmp_mount scratch_mount data_mount container
s3_parts t bk inst database s3 =
    let fs = backup_include_filestore bk in
    record {
      volumes = volume "scratch" (sized_dir (backup_scratch_quantity t bk)) ∷ [];
      init_containers =
          container "dump" (backup_image t) (build_backup_dump_script fs)
            (backup_pg_env inst.spec database ++ (plain env_backup_database database ∷ []))
            (data_mount fs ++ (scratch_mount ∷ tmp_mount ∷ []))
          ∷ [];
      containers =
          container "backup" (backup_s3_image t) build_backup_upload_script
            (backup_s3_env s3 (backup_retention bk) database) (scratch_mount ∷ tmp_mount ∷ [])
          ∷ [];
    }

-- Where neither destination is set, the code follows a nil pointer: `none`.
parts :
    BackupTools
    → OdooBackup
    → OdooInstance
    → String
    → Option BackupPvcDestination
    → Option BackupS3Destination
    → Option Parts
unfolding pvc_parts s3_parts
parts t bk inst database (some pvc) s3 = some (pvc_parts t bk inst database pvc)
parts t bk inst database none (some s3) = some (s3_parts t bk inst database s3)
parts t bk inst database none none = none

pod_of : OdooBackup → OdooInstance → String → Parts → PodSpec
unfolding backup_pod_security common_volumes
pod_of bk inst node_name p =
    let fs = backup_include_filestore bk in
    record {
      restart_policy = "Never";
      automount_token = false;
      security = backup_pod_security;
      init_containers = p.init_containers;
      containers = p.containers;
      volumes = common_volumes fs inst.meta.name ++ p.volumes;
      node_selector =
          if not (node_name == "") && backup_needs_node_pin inst.spec fs
          then ("kubernetes.io/hostname", node_name) ∷ []
          else [];
    }

-- buildBackupPodSpec
unfoldable pub build_backup_pod_spec :
    BackupTools → OdooBackup → OdooInstance → String → String → Option PodSpec
unfolding parts pod_of
build_backup_pod_spec t bk inst database node_name =
    elim (parts t bk inst database bk.spec.destination.pvc bk.spec.destination.s3) [
      | none ↦ none
      | some p ↦ some (pod_of bk inst node_name p)
    ]

job_spec_of : OdooBackup → PodSpec → JobSpec
unfolding backup_labels backup_timeout
job_spec_of bk pod = record {
  backoff_limit = 0;
  active_deadline = backup_timeout bk;
  ttl = 86400;
  template_labels = backup_labels bk.meta.name;
  pod = pod;
}

-- buildBackupJobSpec
unfoldable pub build_backup_job_spec :
    BackupTools → OdooBackup → OdooInstance → String → String → Option JobSpec
unfolding job_spec_of build_backup_pod_spec
build_backup_job_spec t bk inst database node_name =
    elim (build_backup_pod_spec t bk inst database node_name) [
      | none ↦ none
      | some pod ↦ some (job_spec_of bk pod)
    ]

job_of : OdooBackup → JobSpec → NewJob
unfolding backup_labels backup_job_name
job_of bk spec = record {
  name = backup_job_name bk.meta.name;
  namespace = bk.meta.namespace;
  labels = backup_labels bk.meta.name;
  annotations = [];
  backoff_limit = spec.backoff_limit;
  active_deadline = spec.active_deadline;
  ttl = spec.ttl;
  template_labels = spec.template_labels;
  pod = spec.pod;
}

-- buildBackupJob
unfoldable pub build_backup_job :
    BackupTools → OdooBackup → OdooInstance → String → String → Option NewJob
unfolding job_of build_backup_job_spec
build_backup_job t bk inst database node_name =
    elim (build_backup_job_spec t bk inst database node_name) [
      | none ↦ none
      | some spec ↦ some (job_of bk spec)
    ]

-- backupSpecHash
unfoldable pub backup_spec_hash : BackupTools → JobSpec → String
unfolding fnv32a hex8
backup_spec_hash t spec = elim (t.marshal spec) [ none ↦ "" | some raw ↦ hex8 (fnv32a raw) ]

cron_job_of : BackupTools → OdooBackup → JobSpec → NewCronJob
unfolding backup_labels backup_cron_job_name backup_spec_hash
cron_job_of t bk spec = record {
  name = backup_cron_job_name bk.meta.name;
  namespace = bk.meta.namespace;
  labels = backup_labels bk.meta.name;
  annotations = (backup_hash_annotation, backup_spec_hash t spec) ∷ [];
  spec = record {
    schedule = bk.spec.schedule;
    starting_deadline = 300;
    concurrency = "Forbid";
    suspend = bk.spec.suspend;
    history_limit = 3;
    template_labels = backup_labels bk.meta.name;
    job = spec;
  };
}

-- buildBackupCronJob
unfoldable pub build_backup_cron_job :
    BackupTools → OdooBackup → OdooInstance → String → String → Option NewCronJob
unfolding cron_job_of build_backup_job_spec
build_backup_cron_job t bk inst database node_name =
    elim (build_backup_job_spec t bk inst database node_name) [
      | none ↦ none
      | some spec ↦ some (cron_job_of t bk spec)
    ]
