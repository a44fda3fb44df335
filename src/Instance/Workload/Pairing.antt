-- ===== src/Instance/Workload/Pairing.antt =====
-- The web and the cron pods of an instance, side by side: what selects which, and where they run.
use odoo_k8_operator.Base.{ℤ, Bool, true, false, ◌&&◌, ◌==◌, all, any, Option, none, some, ◌≡◌}
use odoo_k8_operator.Kube.Batch.{Labels}
use odoo_k8_operator.Kube.Apps.{NewDeployment, PodAffinity}
use odoo_k8_operator.Api.Instance.{OdooInstance}
use odoo_k8_operator.Instance.Workload.{RolloutHashes, needs_colocation}
use odoo_k8_operator.Instance.Cron.{cron_deployment}
use odoo_k8_operator.Instance.Parts.{web_deployment, web_budget, web_service}

-- A selector takes the labels: each of its pairs is among them.
abbrev pub matches : Labels → Labels → Bool
matches selector labels = all (λ s. any (λ l. l.0 == s.0 && l.1 == s.1) labels) selector

-- A pod with these labels may stand near one that the affinity names.
abbrev pub is_near : Option PodAffinity → Labels → Bool
is_near none labels = false
is_near (some a) labels = matches a.near labels && a.topology_key == "kubernetes.io/hostname"

-- The objects of an instance, side by side: what its Service, its budget and its Deployments select
-- among the pods that the Deployments make.
pub record ArePaired (inst : OdooInstance) (web cron : NewDeployment) : Type 0 where
  -- Each Deployment selects its own pods.
  pub web_owned : matches web.selector web.template.labels ≡ true
  pub cron_owned : matches cron.selector cron.template.labels ≡ true
  pub web_served : matches (web_service inst).selector web.template.labels ≡ true
  pub web_budgeted : matches (web_budget inst).selector web.template.labels ≡ true
  -- Nothing that is meant for the web pods of any instance takes a cron pod, nor the other way round.
  pub cron_unserved :
      (other : OdooInstance) (hashes : RolloutHashes) (n : ℤ)
      → (matches (web_service other).selector cron.template.labels ≡ false)
        × (matches (web_budget other).selector cron.template.labels ≡ false)
        × (matches (web_deployment other hashes n).selector cron.template.labels ≡ false)
        × (matches (cron_deployment other hashes n).selector web.template.labels ≡ false)
  -- The two roll together.
  pub same_annotations : web.template.annotations ≡ cron.template.annotations
  -- Where a volume is for one node, each has to run where some pod of the two does.
  pub together :
      needs_colocation inst.spec ≡ true
      → (web.template.affinity ≡ cron.template.affinity)
        × (is_near web.template.affinity web.template.labels ≡ true)
        × (is_near web.template.affinity cron.template.labels ≡ true)
  pub apart :
      needs_colocation inst.spec ≡ false
      → (web.template.affinity ≡ none) × (cron.template.affinity ≡ none)
