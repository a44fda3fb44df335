-- ===== src/Instance/Reconcile/Safe.antt =====
-- Every write of a pass over an OdooInstance is allowed.
use odoo_k8_operator.Base.{
  pos, ◌≤ℤ◌, ◌==◌, String, Bool, true, false, if◌then◌else◌, List, [], ◌∷◌, ◌++◌, Option, none,
  some, ◌≡◌, refl, ◌⊎◌, inl, inr, Bool-cases,
}
use odoo_k8_operator.Kube.{ApiError, Reply, got, refused}
use odoo_k8_operator.Kube.Retry.{is_not_found, ignore_not_found}
use odoo_k8_operator.Kube.Apps.{NewDeployment}
use odoo_k8_operator.Errors.{Error}
use odoo_k8_operator.Api.{OdooAddon}
use odoo_k8_operator.Api.Instance.{OdooInstance}
use odoo_k8_operator.Phases.{phase_creating}
use odoo_k8_operator.Instance.Gate.{NewUpgrade}
use odoo_k8_operator.Names.{init_upgrade_name, gate_upgrade_name}
use odoo_k8_operator.Instance.Init.{InitDecision, decide_initialization}
use odoo_k8_operator.Instance.Addons.{filter_ready_addons, addons_hash, SecretData}
use odoo_k8_operator.Instance.Config.{render_odoo_conf, cron_enabled}
use odoo_k8_operator.Instance.Workload.{RolloutHashes, desired_replicas}
use odoo_k8_operator.Instance.Pass.{
  InstanceWrite, added_finalizer, removed_finalizer, created_claim, patched_claim, wrote_config_map,
  asked_upgrade, wrote_deployment, wrote_budget, deleted_budget, wrote_cron, deleted_cron,
  stored_status, InstanceReads, InstanceTools, pure, delete_step, raise_if, ◌>>=◌,
}
use odoo_k8_operator.Instance.Pass.Runs.{
  Runs, Stays, Idle, pure-Runs, raise-Runs, write-Runs, then-Runs,
}
use odoo_k8_operator.Instance.Storage.Claims.{Belongs}
use odoo_k8_operator.Instance.Cron.{cron_deployment}
use odoo_k8_operator.Instance.Parts.{web_deployment}
use odoo_k8_operator.Instance.Parts.Steps.{
  secret_at, referenced_secret, referenced_secrets, ready_addons_of, list_ready_addons, rendered,
  conf_or_raise, budget_read, delete_pdb_if_owned, reconcile_pdb,
}
use odoo_k8_operator.Instance.Reconcile.Ready.{IsStatus}

-- The instance as the decisions of a pass see it.
abbrev pub started : OdooInstance → OdooInstance
started inst = record inst {
  status = record inst.status {
    phase = phase_creating;
    observed_generation = inst.meta.generation;
  };
}

module _ (t : InstanceTools) (r : InstanceReads) (inst : OdooInstance) where
  -- The revision is the applied one or that of the ready addons which were read.
  abbrev pub IsRevision : String → Type 0
  IsRevision hash =
      (hash ≡ inst.status.applied_addons_hash)
      ⊎ ((all : List OdooAddon) × (r.addons ≡ got all)
          × (hash ≡ addons_hash t.sha (filter_ready_addons all inst.meta.name)))

  -- What both Deployments are built from.
  pub record IsRollout (hashes : RolloutHashes) (dec : InitDecision) : Type 0 where
    pub decided : (decide_initialization (started inst) r.init).decision ≡ some dec
    pub conf : String
    pub rendered : render_odoo_conf inst.spec ≡ inr conf
    pub of_conf : hashes.config ≡ t.sha conf
    pub revision : IsRevision hashes.addons

  -- The web Deployment has no pods while the database is initialised, and all otherwise.
  pub record IsWeb (d : NewDeployment) : Type 0 where
    pub hashes : RolloutHashes
    pub dec : InitDecision
    pub rollout : IsRollout hashes dec
    pub as_built :
        d ≡ web_deployment inst hashes (if dec.pending then pos 0 else desired_replicas inst.spec)

  -- So has the one of the cron pod, which is there only where spec.cron is on.
  pub record IsCron (d : NewDeployment) : Type 0 where
    pub hashes : RolloutHashes
    pub dec : InitDecision
    pub rollout : IsRollout hashes dec
    pub as_built : d ≡ cron_deployment inst hashes (if dec.pending then pos 0 else pos 1)
    pub enabled : cron_enabled inst.spec.cron ≡ true

  -- An OdooUpgrade of the instance, under one of the two names that the operator makes.
  pub record IsOwnUpgrade (u : NewUpgrade) : Type 0 where
    pub named :
        (u.name ≡ init_upgrade_name inst.meta.name)
        ⊎ ((hash : String) × (u.name ≡ gate_upgrade_name inst.meta.name hash))
    pub beside : u.namespace ≡ inst.meta.namespace
    pub for_it : u.spec.instance_ref.name ≡ inst.meta.name

  abbrev pub Allowed : InstanceWrite → Type 0
  Allowed (created_claim c) = Belongs inst c.name c.owners
  Allowed (patched_claim name owners) = Belongs inst name owners
  Allowed (wrote_config_map name conf) = render_odoo_conf inst.spec ≡ inr conf
  Allowed (wrote_deployment d) = IsWeb d
  Allowed (wrote_cron d) = IsCron d
  Allowed (wrote_budget b) = (desired_replicas inst.spec ≤ℤ pos 1) ≡ false
  -- What is deleted is the instance's, and not wanted.
  Allowed (deleted_budget name) =
      (r.budget ≡ got true) × ((desired_replicas inst.spec ≤ℤ pos 1) ≡ true)
  Allowed (deleted_cron name) = (r.cron ≡ got true) × (cron_enabled inst.spec.cron ≡ false)
  Allowed (stored_status st) = IsStatus t r inst.spec st
  Allowed added_finalizer = r.deleting ≡ false
  Allowed removed_finalizer = r.deleting ≡ true
  Allowed (asked_upgrade u) = IsOwnUpgrade u
  Allowed _ = Unit {0}

  abbrev Anything : {A : Type 0} → OdooInstance → A → OdooInstance → Type 0
  Anything {A} i = Stays i (λ (a : A). Unit {0})

  pub rendered-Runs :
      (i : OdooInstance)
      → Runs Allowed (Stays i (λ conf. render_odoo_conf inst.spec ≡ inr conf)) (rendered t r inst i)
  unfolding rendered
  rendered-Runs i = of_result (render_odoo_conf inst.spec) refl
    where
      of_result :
          (res : Error ⊎ String)
          → render_odoo_conf inst.spec ≡ res
          → Runs Allowed
              (Stays i (λ conf. render_odoo_conf inst.spec ≡ inr conf))
              (conf_or_raise t r res i)
      of_result (inl e) h = raise-Runs Allowed _ _ i
      of_result (inr conf) h = pure-Runs Allowed _ conf i (h, refl)

  secret_at-Runs :
      (field name : String) (reply : Reply SecretData) (i : OdooInstance)
      → Runs Allowed (Anything i) (secret_at t r inst field name reply i)
  unfolding secret_at
  secret_at-Runs field name (got s) i = pure-Runs Allowed (Anything i) (s ∷ []) i (tt, refl)
  secret_at-Runs field name (refused e) i = elim (Bool-cases (is_not_found e)) [
    | inl h ↦ rw h (raise-Runs Allowed (Anything i) _ i)
    | inr h ↦ rw h (raise-Runs Allowed (Anything i) _ i)
  ]

  referenced_secret-Runs :
      (field name : String) (i : OdooInstance)
      → Runs Allowed (Anything i) (referenced_secret t r inst field name i)
  unfolding referenced_secret
  referenced_secret-Runs field name i = elim (Bool-cases (name == "")) [
    | inl h ↦ rw h (pure-Runs Allowed (Anything i) [] i (tt, refl))
    | inr h ↦ rw h (secret_at-Runs field name (r.secret name) i)
  ]

  pub referenced_secrets-Runs :
      (i : OdooInstance) → Runs Allowed (Anything i) (referenced_secrets t r inst i)
  unfolding referenced_secrets
  referenced_secrets-Runs i =
      let admin =
        referenced_secret t r inst "spec.adminPasswordSecret" inst.spec.admin_password_secret in
      then-Runs Allowed (λ (s : List SecretData). Unit {0}) (Anything i)
        (referenced_secret t r inst "spec.postgres.passwordSecret"
          inst.spec.postgres.password_secret)
        (λ s. admin >>= λ s'. pure (s ++ s')) i
        (referenced_secret-Runs "spec.postgres.passwordSecret" inst.spec.postgres.password_secret i)
        (λ s q.
          then-Runs Allowed (λ (s : List SecretData). Unit {0}) (Anything i) admin
            (λ s'. pure (s ++ s')) i
            (referenced_secret-Runs "spec.adminPasswordSecret" inst.spec.admin_password_secret i)
            (λ s' q'. pure-Runs Allowed (Anything i) (s ++ s') i (tt, refl)))

  -- The ready addons of the instance, of those that were read.
  abbrev pub AreReady : List OdooAddon → Type 0
  AreReady addons =
      (all : List OdooAddon) × (r.addons ≡ got all)
      × (addons ≡ filter_ready_addons all inst.meta.name)

  pub list_ready_addons-Runs :
      (i : OdooInstance) → Runs Allowed (Stays i AreReady) (list_ready_addons t r inst i)
  unfolding list_ready_addons ready_addons_of
  list_ready_addons-Runs i = of_reply r.addons refl
    where
      of_reply :
          (reply : Reply (List OdooAddon))
          → r.addons ≡ reply
          → Runs Allowed (Stays i AreReady) (ready_addons_of t r inst reply i)
      of_reply (got all) h = pure-Runs Allowed _ _ i ((all, h, refl), refl)
      of_reply (refused e) h = raise-Runs Allowed _ _ i

  pub delete_step-Runs :
      (e : Option ApiError) (w : InstanceWrite) (i : OdooInstance)
      → Allowed w
      → Runs Allowed (Idle i) (delete_step e w i)
  delete_step-Runs none w i h = write-Runs Allowed (Idle i) none w i h (tt, refl)
  delete_step-Runs (some e) w i h = of_ignored (ignore_not_found e)
    where
      of_ignored : (o : Option Error) → Runs Allowed (Idle i) (raise_if o i)
      of_ignored none = pure-Runs Allowed (Idle i) tt i (tt, refl)
      of_ignored (some err) = raise-Runs Allowed (Idle i) err i

  pub reconcile_pdb-Runs : (i : OdooInstance) → Runs Allowed (Idle i) (reconcile_pdb t r inst i)
  unfolding reconcile_pdb delete_pdb_if_owned budget_read
  reconcile_pdb-Runs i = elim (Bool-cases (desired_replicas inst.spec ≤ℤ pos 1)) [
    | inl few ↦ rw few (of_reply few r.budget refl)
    | inr many ↦ rw many (write-Runs Allowed (Idle i) r.write_budget _ i many (tt, refl))
  ]
    where
      of_reply :
          (desired_replicas inst.spec ≤ℤ pos 1) ≡ true
          → (reply : Reply Bool) → r.budget ≡ reply
          → Runs Allowed (Idle i) (budget_read t r inst reply i)
      of_reply few (refused e) h = elim (Bool-cases (is_not_found e)) [
        | inl k ↦ rw k (pure-Runs Allowed (Idle i) tt i (tt, refl))
        | inr k ↦ rw k (raise-Runs Allowed (Idle i) _ i)
      ]
      of_reply few (got false) h = pure-Runs Allowed (Idle i) tt i (tt, refl)
      of_reply few (got true) h = delete_step-Runs r.delete_budget _ i (h, few)

-- A write for the instance that the pass read.
abbrev pub IsAllowed : InstanceTools → InstanceReads → InstanceWrite → Type 0
IsAllowed t r w = (inst : OdooInstance) × (r.instance_reply ≡ got inst) × Allowed t r inst w
