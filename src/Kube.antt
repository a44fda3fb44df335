-- ===== src/Kube.antt =====
-- What the operator uses of the Kubernetes API types: object metadata, conditions, Jobs, Pods and
-- errors. They are declared by k8s.io/api and k8s.io/apimachinery; only the fields that the
-- operator reads or writes are kept. Functions of those packages are parameters: see `Meta`.
pub mod Meta
pub mod Batch
pub mod Apps
pub mod Mounts
pub mod Retry
use odoo_k8_operator.Base.{ℕ, String, Bool, Option, List}

-- An instant, in seconds (metav1.Time and time.Time; the API server keeps whole seconds).
abbrev pub Time : Type 0
Time = ℕ

pub record ObjectMeta : Type 0 where
  pub name : String
  pub namespace : String
  pub uid : String
  pub generation : ℕ
  pub created : Time

-- metav1.ConditionStatus
pub data CondStatus : Type 0 where
  cond_true cond_false cond_unknown : CondStatus

-- metav1.Condition
pub record Condition : Type 0 where
  pub type : String
  pub status : CondStatus
  pub reason : String
  pub message : String
  pub observed_generation : ℕ
  pub last_transition : Time

-- An error of an API call, by the test of apimachinery's errors package that holds of it.
pub data ApiError : Type 0 where
  not_found already_exists conflict invalid : String → ApiError
  failed : String → ApiError

-- The answer of a read.
pub data Reply {ℓ} (A : Type ℓ) : Type ℓ where
  got : A → Reply A
  refused : ApiError → Reply A

-- batchv1.JobCondition
pub record JobCondition : Type 0 where
  pub type : String
  pub status : CondStatus
  pub reason : String
  pub message : String

-- batchv1.JobStatus
pub record JobStatus : Type 0 where
  pub succeeded : ℕ
  pub failed_pods : ℕ
  pub conditions : List JobCondition
  pub completion_time : Option Time

-- corev1.Pod
pub record Pod : Type 0 where
  pub name : String
  pub created : Time
  pub phase : String
  pub node_name : String
