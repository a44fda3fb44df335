-- ===== src/Kube/Batch.antt =====
-- The parts of batchv1.Job and corev1.PodSpec that the operator fills in or reads. Resource
-- requirements are copied whole from the instance's spec and left out.
use odoo_k8_operator.Base.{ℕ, ℤ, String, Bool, Option, List, [], ◌∷◌, ◌==◌, if◌then◌else◌}
use odoo_k8_operator.Kube.{ObjectMeta, JobStatus}

-- A map with string keys: one value to a key, in no order.
abbrev pub Labels : Type 0
Labels = List (String × String)

-- corev1.EnvVar: a value, or a key of a Secret
pub data EnvVar : Type 0 where
  plain : String → String → EnvVar
  from_secret : String → String → String → EnvVar

pub record VolumeMount : Type 0 where
  pub name : String
  pub mount_path : String
  pub sub_path : String
  pub read_only : Bool

pub data VolumeSource : Type 0 where
  config_map : String → ℕ → VolumeSource
  claim : String → Bool → VolumeSource
  empty_dir : VolumeSource
  -- An emptyDir with a size limit, or one in memory.
  sized_dir : String → VolumeSource
  memory_dir : String → VolumeSource
  secret : String → ℕ → VolumeSource

pub record Volume : Type 0 where
  pub name : String
  pub source : VolumeSource

pub record ContainerSecurity : Type 0 where
  pub allow_privilege_escalation : Bool
  pub read_only_root : Bool
  -- false where it is unset
  pub non_root : Bool
  pub dropped : List String

pub record Container : Type 0 where
  pub name : String
  pub image : String
  pub command : List String
  pub args : List String
  pub env : List EnvVar
  pub mounts : List VolumeMount
  pub security : ContainerSecurity

pub record PodSecurity : Type 0 where
  pub run_as_non_root : Bool
  pub run_as_user : ℕ
  pub run_as_group : Option ℕ
  pub fs_group : ℕ
  pub seccomp : String

pub record PodSpec : Type 0 where
  pub restart_policy : String
  pub automount_token : Bool
  pub security : PodSecurity
  pub init_containers : List Container
  pub containers : List Container
  pub volumes : List Volume
  pub node_selector : Labels

-- A Job as the operator creates it; an owner reference is added by the caller.
pub record NewJob : Type 0 where
  pub name : String
  pub namespace : String
  pub labels : Labels
  pub annotations : Labels
  pub backoff_limit : ℕ
  pub active_deadline : ℤ
  pub ttl : ℕ
  pub template_labels : Labels
  pub pod : PodSpec

-- batchv1.JobSpec
pub record JobSpec : Type 0 where
  pub backoff_limit : ℕ
  pub active_deadline : ℤ
  pub ttl : ℕ
  pub template_labels : Labels
  pub pod : PodSpec

-- batchv1.CronJobSpec; `history_limit` is that of the successful and of the failed Jobs
pub record CronJobSpec : Type 0 where
  pub schedule : String
  pub starting_deadline : ℕ
  pub concurrency : String
  pub suspend : Bool
  pub history_limit : ℕ
  pub template_labels : Labels
  pub job : JobSpec

-- A CronJob as the operator writes it; an owner reference is added by the caller.
pub record NewCronJob : Type 0 where
  pub name : String
  pub namespace : String
  pub labels : Labels
  pub annotations : Labels
  pub spec : CronJobSpec

-- A Job as it is read from the API.
pub record Job : Type 0 where
  pub meta : ObjectMeta
  pub annotations : Labels
  pub status : JobStatus

-- Go's m[key]: "" where the key is missing
unfoldable pub label_of : Labels → String → String
label_of [] key = ""
label_of ((k, v) ∷ rest) key = let below = label_of rest key in if k == key then v else below
