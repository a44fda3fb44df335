-- ===== src/Addon/Job/Pod.antt =====
-- The pods of an OdooAddon's Jobs: buildSyncJob and buildCleanupJob of internal/controller/
-- odooaddon_sync.go.
use odoo_k8_operator.Base.{String, Bool, true, false, ◌||◌, ◌==◌, List, [], ◌∷◌, ◌≡◌, ◌⊎◌, all}
use odoo_k8_operator.Kube.Batch.{Labels, VolumeMount, Volume, Container, PodSpec}
use odoo_k8_operator.Kube.Mounts.{has_volume, has_env, all_secret, mounts_at}
use odoo_k8_operator.Api.{OdooAddon}
use odoo_k8_operator.Upgrade.{read_write_many}
use odoo_k8_operator.Instance.Addons.{addons_mount_path}
use odoo_k8_operator.Addon.Spec.{GitAuthMode, auth_none, auth_https_token, auth_ssh}
use odoo_k8_operator.Addon.Job.{
  SyncJobOptions, JobWiring, git_secret_volume, git_secret_mount_path, build_addon_job,
}

abbrev pub is_credential : String → Bool
is_credential name = name == "GIT_TOKEN" || name == "GIT_USERNAME"

abbrev pub mounts_key : Container → Bool
mounts_key c = mounts_at git_secret_volume git_secret_mount_path true c

-- A container of an addon's Job, over the volumes of its pod.
pub record IsConfined (vs : List Volume) (c : Container) : Type 0 where
  -- Each mount names a volume of the pod.
  pub mounted : all (has_volume vs) c.mounts ≡ true
  -- It writes to the addons and the scratch volume alone.
  pub writes : all (λ m. m.read_only || m.name == "addons" || m.name == "scratch") c.mounts ≡ true
  pub addons : mounts_at "addons" addons_mount_path false c ≡ true
  -- What authenticates is a key of a Secret, never a plain value.
  pub secrets : all_secret is_credential c.env ≡ true
  pub no_escalation : c.security.allow_privilege_escalation ≡ false
  pub read_only_root : c.security.read_only_root ≡ true
  pub dropped : c.security.dropped ≡ "ALL" ∷ []

abbrev pub AllContainers : (Container → Type 0) → List Container → Type 0
AllContainers P [] = Unit {0}
AllContainers P (c ∷ cs) = P c × AllContainers P cs

pub record IsSound (opts : SyncJobOptions) (pod : PodSpec) : Type 0 where
  pub confined : AllContainers (IsConfined pod.volumes) pod.containers
  pub no_init : pod.init_containers ≡ []
  pub no_token : pod.automount_token ≡ false
  pub non_root : pod.security.run_as_non_root ≡ true
  -- It is pinned to a node only where one node alone can mount the claim.
  pub free : (pod.node_selector ≡ []) ⊎ ((opts.addons_access_mode == read_write_many) ≡ false)

abbrev pub is_token : GitAuthMode → Bool
is_token auth_https_token = true
is_token auth_none = false
is_token auth_ssh = false

abbrev pub is_ssh : GitAuthMode → Bool
is_ssh auth_ssh = true
is_ssh auth_none = false
is_ssh auth_https_token = false

-- The container has the token, or the key, where the mode is that.
pub record HasCredentials (token key : Bool) (c : Container) : Type 0 where
  pub with_token : has_env "GIT_TOKEN" c ≡ token
  pub with_key : mounts_key c ≡ key
  pub with_command : has_env "GIT_SSH_COMMAND" c ≡ key

abbrev writes_safely : VolumeMount → Bool
writes_safely m = m.read_only || m.name == "addons" || m.name == "scratch"

-- A pod that is sound, and has the credentials.
abbrev pub IsPodOf : SyncJobOptions → Bool → Bool → PodSpec → Type 0
IsPodOf opts token key pod =
    IsSound opts pod × AllContainers (HasCredentials token key) pod.containers

-- The pod of a Job that is built with this wiring.
module _ (addon : OdooAddon) (job_name : String) (notes : Labels) (script : String)
    (opts : SyncJobOptions) where
  pod_with : JobWiring → PodSpec
  unfolding build_addon_job
  pod_with wiring = (build_addon_job addon job_name notes script wiring opts).pod
