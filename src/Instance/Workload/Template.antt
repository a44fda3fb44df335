-- ===== src/Instance/Workload/Template.antt =====
-- The pod templates: buildPodTemplate of internal/controller/odooinstance_workload.go and
-- buildCronPodTemplate of odooinstance_cron.go.
use odoo_k8_operator.Base.{
  ℤ, pos, String, false, ◌⧺◌, if◌then◌else◌, List, [], ◌∷◌, ◌++◌, Option, none, some, signed,
}
use odoo_k8_operator.Kube.Batch.{VolumeMount, Volume, Container, PodSpec}
use odoo_k8_operator.Kube.Apps.{Serving, PodTemplate}
use odoo_k8_operator.Api.Instance.{OdooInstance, CronSpec}
use odoo_k8_operator.Instance.Workload.{
  RolloutHashes, odoo_image, pod_labels, cron_pod_labels, build_odoo_args, build_web_args,
  admin_password_rendered, render_config_container, rendered_volume, rendered_volume_mount,
  build_odoo_env, odoo_probe, pod_annotations, odoo_pod_security, odoo_container_security,
  odoo_volume_mounts, odoo_volumes, colocation_affinity,
}

-- The container of odooPodSpec, with the arguments given.
unfoldable pub odoo_container : OdooInstance → List String → List VolumeMount → Container
unfolding odoo_image build_odoo_env odoo_container_security
odoo_container inst args mounts = record {
  name = "odoo";
  image = odoo_image inst.spec;
  command = [];
  args = args;
  env = build_odoo_env inst.spec;
  mounts = mounts;
  security = odoo_container_security;
}

-- odooPodSpec, with what buildPodTemplate appends to its mounts, volumes and init containers
unfoldable pub odoo_pod_spec :
    OdooInstance → List String → List VolumeMount → List Volume → List Container → PodSpec
unfolding odoo_container odoo_pod_security odoo_volume_mounts odoo_volumes
odoo_pod_spec inst args more_mounts more_volumes inits = record {
  restart_policy = "Always";
  automount_token = false;
  security = odoo_pod_security;
  init_containers = inits;
  containers = odoo_container inst args (odoo_volume_mounts ++ more_mounts) ∷ [];
  volumes = odoo_volumes inst.meta.name ++ more_volumes;
  node_selector = [];
}

-- The ports and probes of buildPodTemplate.
web_serving : Serving
unfolding odoo_probe
web_serving = record {
  ports = ("odoo", 8069) ∷ ("longpolling", 8072) ∷ [];
  startup = odoo_probe 10 30;
  readiness = odoo_probe 10 3;
  liveness = odoo_probe 20 3;
}

-- buildPodTemplate
unfoldable pub build_pod_template : OdooInstance → RolloutHashes → PodTemplate
unfolding pod_labels pod_annotations colocation_affinity web_serving odoo_pod_spec build_web_args
    admin_password_rendered render_config_container rendered_volume_mount rendered_volume
build_pod_template inst hashes = record {
  labels = pod_labels inst.meta.name;
  annotations = pod_annotations hashes;
  grace_seconds = 60;
  affinity = colocation_affinity inst.meta.name inst.spec;
  serving = some web_serving;
  pod =
      if admin_password_rendered inst.spec
      then odoo_pod_spec inst (build_web_args inst.spec) (rendered_volume_mount ∷ [])
          (rendered_volume ∷ []) (render_config_container inst ∷ [])
      else odoo_pod_spec inst (build_web_args inst.spec) [] [] [];
}

-- cronMaxThreads
unfoldable pub cron_max_threads : Option CronSpec → ℤ
cron_max_threads none = pos 2
cron_max_threads (some c) = elim c.max_cron_threads [ none ↦ pos 2 | some n ↦ n ]

-- buildCronArgs
unfoldable pub build_cron_args : OdooInstance → List String
unfolding build_odoo_args cron_max_threads signed
build_cron_args inst =
    build_odoo_args
    ++ ("--no-http" ∷ ("--max-cron-threads=" ⧺ signed (cron_max_threads inst.spec.cron)) ∷ [])

-- buildCronPodTemplate
unfoldable pub build_cron_pod_template : OdooInstance → RolloutHashes → PodTemplate
unfolding cron_pod_labels pod_annotations colocation_affinity odoo_pod_spec build_cron_args
build_cron_pod_template inst hashes = record {
  labels = cron_pod_labels inst.meta.name;
  annotations = pod_annotations hashes;
  grace_seconds = 60;
  affinity = colocation_affinity inst.meta.name inst.spec;
  serving = none;
  pod = odoo_pod_spec inst (build_cron_args inst) [] [] [];
}
