-- ===== src/Backup/Job/Pod.antt =====
-- The pod of a backup: its volumes, its mounts, who sees which credentials, and where it may run.
use odoo_k8_operator.Base.{
  String, Bool, true, false, ◌||◌, not, ◌==◌, List, [], ◌∷◌, ◌≡◌, ◌≢◌, any, all,
}
use odoo_k8_operator.Kube.Batch.{
  EnvVar, plain, from_secret, VolumeMount, Volume, Container, PodSpec,
}
use odoo_k8_operator.Api.Instance.{OdooInstance}
use odoo_k8_operator.Upgrade.{read_write_many}
use odoo_k8_operator.Backup.Settings.{backup_access_mode}

-- The environment variables that hold credentials.
abbrev pub is_aws_name : String → Bool
is_aws_name n = n == "AWS_ACCESS_KEY_ID" || n == "AWS_SECRET_ACCESS_KEY"

abbrev pub is_pg_name : String → Bool
is_pg_name n = n == "PGPASSWORD"

abbrev pub env_name : EnvVar → String
env_name (plain n v) = n
env_name (from_secret n secret key) = n

-- A credential comes from a Secret, never as a plain value.
abbrev pub keeps_secrets : EnvVar → Bool
keeps_secrets (plain n v) = not (is_aws_name n || is_pg_name n)
keeps_secrets (from_secret n secret key) = true

abbrev pub mounts_data : Container → Bool
mounts_data c = any (λ m. m.name == "data") c.mounts

abbrev pub has_volume : List Volume → VolumeMount → Bool
has_volume vs m = any (λ v. v.name == m.name) vs

-- A container of a backup pod, over the pod's volumes.
pub record IsConfined (vs : List Volume) (c : Container) : Type 0 where
  -- Each mount names a volume of the pod.
  pub mounted : all (has_volume vs) c.mounts ≡ true
  pub data_read_only : all (λ m. not (m.name == "data") || m.read_only) c.mounts ≡ true
  pub secrets : all keeps_secrets c.env ≡ true
  -- Whoever holds the upload's credentials sees neither the database's nor the data.
  pub apart :
      any (λ e. is_aws_name (env_name e)) c.env ≡ true
      → (any (λ e. is_pg_name (env_name e)) c.env ≡ false) × (mounts_data c ≡ false)
  pub no_escalation : c.security.allow_privilege_escalation ≡ false
  pub read_only_root : c.security.read_only_root ≡ true
  pub non_root : c.security.non_root ≡ true
  pub dropped : c.security.dropped ≡ "ALL" ∷ []

abbrev pub AllConfined : List Volume → List Container → Type 0
AllConfined vs [] = Unit {0}
AllConfined vs (c ∷ cs) = IsConfined vs c × AllConfined vs cs

pub record IsSound (inst : OdooInstance) (pod : PodSpec) : Type 0 where
  pub init_confined : AllConfined pod.volumes pod.init_containers
  pub confined : AllConfined pod.volumes pod.containers
  pub no_token : pod.automount_token ≡ false
  -- A pod is pinned to a node only for the data volume, which one node at a time can mount.
  pub pinned :
      pod.node_selector ≢ []
      → (any (λ v. v.name == "data") pod.volumes ≡ true)
        × ((backup_access_mode inst.spec.data_volume.access_mode == read_write_many) ≡ false)
