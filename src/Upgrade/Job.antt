-- ===== src/Upgrade/Job.antt =====
-- buildUpgradeJob of internal/controller/odooupgrade_job.go.
use odoo_k8_operator.Base.{
  String, Bool, some, true, false, ◌&&◌, not, ◌==◌, if◌then◌else◌, List, [], ◌∷◌, ◌++◌,
}
use odoo_k8_operator.Names.{
  upgrade_job_name, upgrade_label_value, config_map_name, addons_pvc_name, data_pvc_name,
}
use odoo_k8_operator.Shell.{upgrade_init_script}
use odoo_k8_operator.Kube.Batch.{
  Labels, EnvVar, plain, from_secret, VolumeMount, VolumeSource, config_map, claim, empty_dir,
  Volume, Container, PodSpec, NewJob,
}
use odoo_k8_operator.Api.{OdooUpgrade}
use odoo_k8_operator.Api.Instance.{OdooInstance, OdooInstanceSpec}
use odoo_k8_operator.Upgrade.{upgrade_args, upgrade_image, upgrade_needs_node_pin, upgrade_timeout}

abbrev pub label_managed_by : String
label_managed_by = "app.kubernetes.io/managed-by"

abbrev pub upgrade_label_key : String
upgrade_label_key = "odoo.operator.io/upgrade"

-- upgradeLabels
unfoldable pub upgrade_labels : String → Labels
unfolding upgrade_label_value
upgrade_labels name =
    (label_managed_by, "odoo-k8-operator") ∷ (upgrade_label_key, upgrade_label_value name) ∷ []

-- upgradeCommand: the command and its arguments
unfoldable pub upgrade_command : OdooUpgrade → String → List String × List String
unfolding upgrade_args upgrade_init_script
upgrade_command up database =
    let args = upgrade_args database up.spec.modules up.spec.install_modules up.spec.with_demo in
    if up.spec.admin_user_password_secret == ""
    then ([], args)
    else ("/bin/sh" ∷ "-c" ∷ [], upgrade_init_script database args ∷ [])

-- upgradeEnv
unfoldable pub upgrade_env : OdooInstanceSpec → List EnvVar
upgrade_env spec =
    let secret = spec.postgres.password_secret in
    (if not (secret == "")
      then from_secret "PGPASSWORD" secret "password"
        ∷ from_secret "DB_PASSWORD" secret "password"
        ∷ []
      else [])
    ++ (plain "PGSSLMODE" "require" ∷ [])

-- upgradeEnvFor
unfoldable pub upgrade_env_for : OdooUpgrade → OdooInstanceSpec → List EnvVar
unfolding upgrade_env
upgrade_env_for up spec =
    let secret = up.spec.admin_user_password_secret in
    upgrade_env spec
    ++ (if not (secret == "")
        then from_secret "ODOO_ADMIN_USER_PASSWORD" secret "password" ∷ []
        else [])

mount : String → String → Bool → VolumeMount
mount name path read_only = record {
  name = name;
  mount_path = path;
  sub_path = "";
  read_only = read_only;
}

volume : String → VolumeSource → Volume
volume name source = record { name = name; source = source }

upgrade_container : OdooUpgrade → OdooInstance → String → Container
unfolding upgrade_command upgrade_env_for upgrade_image mount
upgrade_container up inst database =
    let (command, args) = upgrade_command up database in
    record {
      name = "upgrade";
      image = upgrade_image inst.spec;
      command = command;
      args = args;
      env = upgrade_env_for up inst.spec;
      mounts =
          mount "odoo-config" "/etc/odoo" true
          ∷ mount "addons" "/mnt/odoo/addons" true
          ∷ mount "data" "/var/lib/odoo" false
          ∷ mount "tmp" "/tmp" false
          ∷ [];
      security = record {
        allow_privilege_escalation = false;
        read_only_root = true;
        non_root = false;
        dropped = "ALL" ∷ [];
      };
    }

upgrade_volumes : OdooInstance → List Volume
unfolding config_map_name addons_pvc_name data_pvc_name volume
upgrade_volumes inst =
    volume "odoo-config" (config_map (config_map_name inst.meta.name) 0o644)
    ∷ volume "addons" (claim (addons_pvc_name inst.meta.name) true)
    ∷ volume "data" (claim (data_pvc_name inst.meta.name) false)
    ∷ volume "tmp" empty_dir
    ∷ []

-- The pod runs as the odoo user and is pinned where the volumes need it.
upgrade_pod_spec : OdooUpgrade → OdooInstance → String → String → PodSpec
unfolding upgrade_container upgrade_volumes upgrade_needs_node_pin
upgrade_pod_spec up inst database node_name = record {
  restart_policy = "Never";
  automount_token = false;
  security = record {
    run_as_non_root = true;
    run_as_user = 100;
    run_as_group = some 100;
    fs_group = 100;
    seccomp = "RuntimeDefault";
  };
  init_containers = [];
  containers = upgrade_container up inst database ∷ [];
  volumes = upgrade_volumes inst;
  node_selector =
      if not (node_name == "") && upgrade_needs_node_pin inst.spec
      then ("kubernetes.io/hostname", node_name) ∷ []
      else [];
}

-- buildUpgradeJob
unfoldable pub build_upgrade_job : OdooUpgrade → OdooInstance → String → String → NewJob
unfolding upgrade_job_name upgrade_labels upgrade_timeout upgrade_pod_spec
build_upgrade_job up inst database node_name = record {
  name = upgrade_job_name up.meta.name;
  namespace = up.meta.namespace;
  labels = upgrade_labels up.meta.name;
  annotations = [];
  backoff_limit = 0;
  active_deadline = upgrade_timeout up;
  ttl = 86400;
  template_labels = upgrade_labels up.meta.name;
  pod = upgrade_pod_spec up inst database node_name;
}
