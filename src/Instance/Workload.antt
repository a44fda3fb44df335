-- ===== src/Instance/Workload.antt =====
-- internal/controller/odooinstance_workload.go and the labels of odooinstance_cron.go: what the pods
-- of an instance are made of. Resource requirements are copied whole and left out.
pub mod Template
pub mod Pods
pub mod Pairing
use odoo_k8_operator.Base.{
  ℕ, ℤ, pos, ◌<ℤ◌, ◌≤ℤ◌, String, Bool, true, false, ◌&&◌, ◌||◌, not, ◌⧺◌, ◌==◌, if◌then◌else◌, List,
  [], ◌∷◌, ◌++◌, Option, none, some, join, signed,
}
use odoo_k8_operator.Kube.Batch.{
  Labels, EnvVar, plain, from_secret, VolumeMount, VolumeSource, config_map, claim, empty_dir,
  memory_dir, Volume, ContainerSecurity, Container, PodSecurity, PodSpec,
}
use odoo_k8_operator.Kube.Apps.{
  Probe, Serving, PodAffinity, PodTemplate, Strategy, recreate, rolling_update, ServicePort,
}
use odoo_k8_operator.Api.Instance.{OdooInstance, OdooInstanceSpec, CronSpec}
use odoo_k8_operator.Names.{config_map_name, addons_pvc_name, data_pvc_name}
use odoo_k8_operator.Instance.Addons.{addons_mount_path}

-- rolloutHashes
pub record RolloutHashes : Type 0 where
  pub config : String
  pub secrets : String
  pub addons : String

-- desiredReplicas
unfoldable pub desired_replicas : OdooInstanceSpec → ℤ
desired_replicas spec = if spec.replicas <ℤ pos 1 then pos 1 else spec.replicas

-- odooImage
unfoldable pub odoo_image : OdooInstanceSpec → String
odoo_image spec = if spec.image == "" then "odoo:19.0" else spec.image

-- selectorLabels
unfoldable pub selector_labels : String → Labels
selector_labels name = ("app", "odoo") ∷ ("instance", name) ∷ []

-- podLabels
unfoldable pub pod_labels : String → Labels
unfolding selector_labels
pod_labels name =
    selector_labels name
    ++ (("app.kubernetes.io/name", "odoo")
        ∷ ("app.kubernetes.io/instance", name)
        ∷ ("app.kubernetes.io/managed-by", "odoo-k8-operator")
        ∷ [])

-- cronSelectorLabels
unfoldable pub cron_selector_labels : String → Labels
cron_selector_labels name = ("app", "odoo-cron") ∷ ("instance", name) ∷ []

-- cronPodLabels
unfoldable pub cron_pod_labels : String → Labels
unfolding cron_selector_labels
cron_pod_labels name =
    cron_selector_labels name
    ++ (("app.kubernetes.io/name", "odoo")
        ∷ ("app.kubernetes.io/instance", name)
        ∷ ("app.kubernetes.io/managed-by", "odoo-k8-operator")
        ∷ ("app.kubernetes.io/component", "cron")
        ∷ [])

is_one : ℤ → Bool
is_one n = (n ≤ℤ pos 1) && (pos 1 ≤ℤ n)

-- deploymentStrategy
unfoldable pub deployment_strategy : ℤ → String → Strategy
unfolding is_one
deployment_strategy replicas mode =
    if is_one replicas && not (mode == "ReadWriteMany") then recreate else rolling_update 0 1

-- adminPasswordRendered
unfoldable pub admin_password_rendered : OdooInstanceSpec → Bool
admin_password_rendered spec = not (spec.admin_password_secret == "")

abbrev pub odoo_conf_path : String
odoo_conf_path = "/etc/odoo/odoo.conf"

abbrev pub rendered_conf_path : String
rendered_conf_path = "/run/odoo-conf/odoo.conf"

-- buildOdooArgs
unfoldable pub build_odoo_args : List String
build_odoo_args = "--config" ∷ odoo_conf_path ∷ []

-- buildWebArgs
unfoldable pub build_web_args : OdooInstanceSpec → List String
unfolding admin_password_rendered build_odoo_args
build_web_args spec =
    if admin_password_rendered spec then "--config" ∷ rendered_conf_path ∷ [] else build_odoo_args

-- renderConfigScript
unfoldable pub render_config_script : String → String → String
unfolding join
render_config_script src dst = join "\n" (
    "set -eu"
    ∷ "if [ -z \"${ODOO_ADMIN_PASSWD:-}\" ]; then"
    ∷ "  echo \"render-config: ODOO_ADMIN_PASSWD is empty, check spec.adminPasswordSecret\" >&2"
    ∷ "  exit 1"
    ∷ "fi"
    ∷ "umask 077"
    ∷ ("{ cat " ⧺ src ⧺ "; printf 'admin_passwd = %s\\n' \"$ODOO_ADMIN_PASSWD\"; } > " ⧺ dst)
    ∷ ""
    ∷ [])

-- secretKeyEnv
unfoldable pub secret_key_env : String → String → EnvVar
secret_key_env env secret = from_secret env secret "password"

-- adminPasswordEnv
unfoldable pub admin_password_env : OdooInstanceSpec → List EnvVar
unfolding admin_password_rendered secret_key_env
admin_password_env spec =
    if not (admin_password_rendered spec)
    then []
    else secret_key_env "ODOO_ADMIN_PASSWD" spec.admin_password_secret ∷ []

-- odooContainerSecurityContext
unfoldable pub odoo_container_security : ContainerSecurity
odoo_container_security = record {
  allow_privilege_escalation = false;
  read_only_root = true;
  non_root = false;
  dropped = "ALL" ∷ [];
}

-- odooPodSecurityContext
unfoldable pub odoo_pod_security : PodSecurity
odoo_pod_security = record {
  run_as_non_root = true;
  run_as_user = 100;
  run_as_group = none;
  fs_group = 100;
  seccomp = "RuntimeDefault";
}

mount : String → String → Bool → VolumeMount
mount name path read_only = record {
  name = name;
  mount_path = path;
  sub_path = "";
  read_only = read_only;
}

-- renderConfigContainer
unfoldable pub render_config_container : OdooInstance → Container
unfolding odoo_image render_config_script admin_password_env mount odoo_container_security
render_config_container inst = record {
  name = "render-config";
  image = odoo_image inst.spec;
  command = "/bin/sh" ∷ "-c" ∷ render_config_script odoo_conf_path rendered_conf_path ∷ [];
  args = [];
  env = admin_password_env inst.spec;
  mounts = mount "odoo-config" "/etc/odoo" true ∷ mount "odoo-rendered" "/run/odoo-conf" false ∷ [];
  security = odoo_container_security;
}

-- renderedVolume
unfoldable pub rendered_volume : Volume
rendered_volume = record { name = "odoo-rendered"; source = memory_dir "1Mi" }

-- renderedVolumeMount
unfoldable pub rendered_volume_mount : VolumeMount
unfolding mount
rendered_volume_mount = mount "odoo-rendered" "/run/odoo-conf" true

-- buildOdooEnv
unfoldable pub build_odoo_env : OdooInstanceSpec → List EnvVar
unfolding secret_key_env
build_odoo_env spec =
    (if not (spec.postgres.password_secret == "")
      then secret_key_env "PGPASSWORD" spec.postgres.password_secret
        ∷ secret_key_env "DB_PASSWORD" spec.postgres.password_secret
        ∷ []
      else [])
    ++ (if not (spec.postgres.database == "") then plain "PGSSLMODE" "require" ∷ [] else [])

-- odooProbes
unfoldable pub odoo_probe : ℕ → ℕ → Probe
odoo_probe period failure = record {
  path = "/web/health";
  port = 8069;
  period = period;
  timeout = 1;
  success = 1;
  failure = failure;
}

-- buildServicePorts
unfoldable pub build_service_ports : List ServicePort
build_service_ports =
    record { name = "odoo"; port = 8069; target_port = 8069 }
    ∷ record { name = "longpolling"; port = 8072; target_port = 8072 }
    ∷ []

-- podAnnotations
unfoldable pub pod_annotations : RolloutHashes → Labels
pod_annotations hashes =
    ("odoo.operator.io/config-hash", hashes.config)
    ∷ ("odoo.operator.io/secrets-hash", hashes.secrets)
    ∷ ("odoo.operator.io/addons-hash", hashes.addons)
    ∷ []

-- odooVolumeMounts
unfoldable pub odoo_volume_mounts : List VolumeMount
unfolding mount
odoo_volume_mounts =
    mount "odoo-config" "/etc/odoo" true
    ∷ mount "addons" addons_mount_path true
    ∷ mount "data" "/var/lib/odoo" false
    ∷ mount "tmp" "/tmp" false
    ∷ []

-- odooVolumes
unfoldable pub odoo_volumes : String → List Volume
unfolding config_map_name addons_pvc_name data_pvc_name
odoo_volumes name =
    record { name = "odoo-config"; source = config_map (config_map_name name) 0o644 }
    ∷ record { name = "addons"; source = claim (addons_pvc_name name) true }
    ∷ record { name = "data"; source = claim (data_pvc_name name) false }
    ∷ record { name = "tmp"; source = empty_dir }
    ∷ []

-- needsColocation
unfoldable pub needs_colocation : OdooInstanceSpec → Bool
needs_colocation spec =
    not (spec.data_volume.access_mode == "ReadWriteMany")
    || not (spec.addons.access_mode == "ReadWriteMany")

-- colocationAffinity
unfoldable pub colocation_affinity : String → OdooInstanceSpec → Option PodAffinity
unfolding needs_colocation
colocation_affinity name spec =
    if not (needs_colocation spec)
    then none
    else some (record { near = ("instance", name) ∷ []; topology_key = "kubernetes.io/hostname" })
