-- ===== src/Kube/Apps.antt =====
-- The parts of appsv1.Deployment, corev1.Service and policyv1.PodDisruptionBudget that the operator
-- fills in. Fields that it sets to the API server's own defaults (DNS policy, scheduler, termination
-- message) are left out.
use odoo_k8_operator.Base.{ℕ, ℤ, String, List, Option}
use odoo_k8_operator.Kube.Batch.{Labels, PodSpec}

-- An HTTP probe.
pub record Probe : Type 0 where
  pub path : String
  pub port : ℕ
  pub period : ℕ
  pub timeout : ℕ
  pub success : ℕ
  pub failure : ℕ

-- What a container serves: its named TCP ports and its probes.
pub record Serving : Type 0 where
  pub ports : List (String × ℕ)
  pub startup : Probe
  pub readiness : Probe
  pub liveness : Probe

-- A required pod affinity: the labels of the pods to be near, and what counts as near.
pub record PodAffinity : Type 0 where
  pub near : Labels
  pub topology_key : String

-- corev1.PodTemplateSpec, of a pod with one container
pub record PodTemplate : Type 0 where
  pub labels : Labels
  pub annotations : Labels
  pub grace_seconds : ℕ
  pub affinity : Option PodAffinity
  pub serving : Option Serving
  pub pod : PodSpec

-- appsv1.DeploymentStrategy
pub data Strategy : Type 0 where
  recreate : Strategy
  -- maxUnavailable and maxSurge
  rolling_update : ℕ → ℕ → Strategy

-- A Deployment as the operator writes it, owned by the instance.
pub record NewDeployment : Type 0 where
  pub name : String
  pub namespace : String
  pub labels : Labels
  pub replicas : ℤ
  pub selector : Labels
  pub strategy : Strategy
  pub template : PodTemplate

pub record ServicePort : Type 0 where
  pub name : String
  pub port : ℕ
  pub target_port : ℕ

-- A ClusterIP Service as the operator writes it, owned by the instance.
pub record NewService : Type 0 where
  pub name : String
  pub namespace : String
  pub selector : Labels
  pub ports : List ServicePort

-- A PodDisruptionBudget as the operator writes it, owned by the instance.
pub record NewBudget : Type 0 where
  pub name : String
  pub namespace : String
  pub max_unavailable : ℕ
  pub selector : Labels
