-- ===== src/Addon/Job.antt =====
-- The Jobs of an OdooAddon: syncImage, buildSyncJob, buildCleanupJob and buildAddonJob of internal/
-- controller/odooaddon_sync.go. Resource requirements, which are constants, are left out.
pub mod Pod
use odoo_k8_operator.Base.{
  String, Bool, true, false, ◌&&◌, not, ◌⧺◌, ◌==◌, if◌then◌else◌, pos, List, [], ◌∷◌, ◌++◌, some,
}
use odoo_k8_operator.Kube.Batch.{
  Labels, EnvVar, plain, from_secret, VolumeMount, VolumeSource, claim, empty_dir, secret, Volume,
  NewJob,
}
use odoo_k8_operator.Api.{OdooAddon}
use odoo_k8_operator.Api.Instance.{OdooInstance}
use odoo_k8_operator.Upgrade.{read_write_many}
use odoo_k8_operator.Upgrade.Job.{label_managed_by}
use odoo_k8_operator.Instance.Addons.{addons_mount_path}
use odoo_k8_operator.Addon.State.{annotation_sync_spec_hash}
use odoo_k8_operator.Addon.Spec.{
  SyncSpec, GitAuthMode, auth_none, auth_https_token, auth_ssh, sync_spec_hash,
}
use odoo_k8_operator.Addon.Script.{env_git_username, build_sync_script, build_cleanup_script}

-- syncJobOptions
pub record SyncJobOptions : Type 0 where
  pub image : String
  pub pvc_name : String
  pub node_name : String
  pub addons_access_mode : String

-- What both kinds of Job are created with: the image of the operator, a claim of the instance, and
-- the node of a running pod of the instance, or "".
unfoldable pub job_options : String → OdooInstance → String → String → SyncJobOptions
job_options image inst pvc_name node_name = record {
  image = image;
  pvc_name = pvc_name;
  node_name = node_name;
  addons_access_mode = inst.spec.addons.access_mode;
}

-- jobWiring
pub record JobWiring : Type 0 where
  pub env : List EnvVar
  pub volumes : List Volume
  pub mounts : List VolumeMount

abbrev pub label_addon_owner : String
label_addon_owner = "odoo.operator.io/addon"

abbrev pub git_secret_volume : String
git_secret_volume = "git-secret"

abbrev pub git_secret_mount_path : String
git_secret_mount_path = "/etc/git-secret"

abbrev pub scratch_mount_path : String
scratch_mount_path = "/tmp"

-- syncImage, of OPERATOR_SYNC_IMAGE
unfoldable pub sync_image : String → String
sync_image env = if not (env == "") then env else "alpine/git:2.47.2"

-- sshCommand
abbrev pub ssh_command : String
ssh_command =
    "ssh -i " ⧺ git_secret_mount_path ⧺ "/ssh-privatekey" ⧺ " -o UserKnownHostsFile="
    ⧺ git_secret_mount_path ⧺ "/known_hosts" ⧺ " -o StrictHostKeyChecking=yes -o IdentitiesOnly=yes"

-- Whether the key may be missing is not modelled.
abbrev pub secret_env_source : String → String → String → EnvVar
secret_env_source name key_name key = from_secret name key_name key

addon_mount : String → String → Bool → VolumeMount
addon_mount name path read_only = record {
  name = name;
  mount_path = path;
  sub_path = "";
  read_only = read_only;
}

-- How the Job authenticates to the git remote: its environment, volumes and mounts for that.
unfoldable pub auth_wiring : GitAuthMode → String → JobWiring
unfolding addon_mount
auth_wiring auth_none name = record { env = []; volumes = []; mounts = [] }
auth_wiring auth_https_token name = record {
  env =
      secret_env_source "GIT_TOKEN" name "token"
      ∷ secret_env_source env_git_username name "username"
      ∷ [];
  volumes = [];
  mounts = [];
}
auth_wiring auth_ssh name = record {
  env = plain "GIT_SSH_COMMAND" ssh_command ∷ [];
  -- The key is read through the pod's group.
  volumes = record { name = git_secret_volume; source = secret name 0o440 } ∷ [];
  mounts = addon_mount git_secret_volume git_secret_mount_path true ∷ [];
}

-- Of a cleanup Job.
unfoldable pub no_wiring : JobWiring
no_wiring = record { env = []; volumes = []; mounts = [] }

-- What a sync Job gets on top of what its mode calls for.
unfoldable pub wired : SyncSpec → GitAuthMode → JobWiring
unfolding auth_wiring
wired s mode =
    let wiring = auth_wiring mode s.secret_name in
    record wiring { env = plain "GIT_URL" s.git_url ∷ plain "GIT_REF" s.git_ref ∷ wiring.env }

-- An RWO claim is mounted on one node, which the Job must run on too.
node_pin : SyncJobOptions → Labels
node_pin opts =
    if not (opts.node_name == "") && not (opts.addons_access_mode == read_write_many)
    then ("kubernetes.io/hostname", opts.node_name) ∷ []
    else []

-- buildAddonJob
unfoldable pub build_addon_job :
    OdooAddon → String → Labels → String → JobWiring → SyncJobOptions → NewJob
unfolding node_pin addon_mount
build_addon_job addon job_name annotations script wiring opts = record {
  name = job_name;
  namespace = addon.meta.namespace;
  labels = (label_managed_by, "odoo-k8-operator") ∷ (label_addon_owner, addon.meta.name) ∷ [];
  annotations = annotations;
  backoff_limit = 1;
  active_deadline = pos 180;
  ttl = 300;
  template_labels = (label_addon_owner, addon.meta.name) ∷ [];
  pod = record {
    restart_policy = "Never";
    automount_token = false;
    security = record {
      run_as_non_root = true;
      run_as_user = 65532;
      run_as_group = some 65532;
      fs_group = 65532;
      seccomp = "RuntimeDefault";
    };
    init_containers = [];
    containers =
        record {
          name = "sync";
          image = opts.image;
          command = "sh" ∷ "-c" ∷ script ∷ [];
          args = [];
          env = plain "HOME" scratch_mount_path ∷ wiring.env;
          mounts =
              addon_mount "addons" addons_mount_path false
              ∷ addon_mount "scratch" scratch_mount_path false
              ∷ wiring.mounts;
          security = record {
            allow_privilege_escalation = false;
            read_only_root = true;
            non_root = false;
            dropped = "ALL" ∷ [];
          };
        }
        ∷ [];
    volumes =
        record { name = "addons"; source = claim opts.pvc_name false }
        ∷ record { name = "scratch"; source = empty_dir }
        ∷ wiring.volumes;
    node_selector = node_pin opts;
  };
}

-- syncJobName
abbrev pub sync_job_name : String → String
sync_job_name addon_name = addon_name ⧺ "-sync"

-- cleanupJobName
abbrev pub cleanup_job_name : String → String
cleanup_job_name addon_name = addon_name ⧺ "-cleanup"

-- buildSyncJob; `digest` is that of `sync_spec_hash`.
unfoldable pub build_sync_job :
    (List String → String) → OdooAddon → SyncSpec → SyncJobOptions → NewJob
unfolding build_addon_job wired build_sync_script sync_spec_hash
build_sync_job digest addon s opts =
    build_addon_job addon (sync_job_name addon.meta.name)
      ((annotation_sync_spec_hash, sync_spec_hash digest s) ∷ []) (build_sync_script s)
      (wired s s.auth) opts

-- buildCleanupJob
unfoldable pub build_cleanup_job : OdooAddon → SyncJobOptions → NewJob
unfolding build_addon_job build_cleanup_script no_wiring
build_cleanup_job addon opts =
    build_addon_job addon (cleanup_job_name addon.meta.name) []
      (build_cleanup_script addon.meta.name) no_wiring opts
