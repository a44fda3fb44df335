-- ===== src/Instance/Init/Allowed.antt =====
-- What a pass of decideInitialization may do (internal/controller/odooinstance_init.go).
use odoo_k8_operator.Base.{
  ℕ, ◌<◌, ltb, Bool-cases, String, Bool, true, false, ◌&&◌, ◌||◌, not, ◌==◌, Option, none, some,
  ◌≡◌, ◌⊎◌, inl, inr, refl, arith,
}
use odoo_k8_operator.Kube.{ApiError, got, refused}
use odoo_k8_operator.Kube.Retry.{is_not_found}
use odoo_k8_operator.Api.{OdooUpgrade}
use odoo_k8_operator.Api.Instance.{OdooInstance, InitializeSpec}
use odoo_k8_operator.Phases.{
  upgrade_phase_succeeded, upgrade_phase_failed, phase_initializing, phase_init_failed,
}
use odoo_k8_operator.Names.{init_upgrade_name}
use odoo_k8_operator.Instance.Gate.{NewUpgrade}
use odoo_k8_operator.Instance.Init.{
  InitInput, InitDecision, InitReads, InitPass, init_decide, init_new_upgrade, check_init_secret,
}

-- The OdooUpgrade that the pass read is the instance's, and it succeeded.
pub record InitSucceeded (inst : OdooInstance) (r : InitReads) : Type 0 where
  pub upgrade : OdooUpgrade
  pub was_read : r.upgrade ≡ got upgrade
  pub of_instance : (upgrade.spec.instance_ref.name == inst.meta.name) ≡ true
  pub succeeded : upgrade.status.phase ≡ upgrade_phase_succeeded

-- No OdooUpgrade was there.
pub record IsMissing (r : InitReads) : Type 0 where
  pub error : ApiError
  pub was_read : r.upgrade ≡ refused error
  pub missing : is_not_found error ≡ true

pub record IsNeeded (inst : OdooInstance) (r : InitReads) (new : NewUpgrade) : Type 0 where
  pub spec : InitializeSpec
  pub spec_set : inst.spec.initialize ≡ some spec
  pub secret : r.secret ≡ none
  pub missing : IsMissing r
  pub as_asked : new ≡ init_new_upgrade inst spec (init_upgrade_name inst.meta.name)

-- The phases of an instance that is held.
abbrev pub is_init_phase : String → Bool
is_init_phase phase = phase == phase_initializing || phase == phase_init_failed

pub init_decide-phase :
    (i : InitInput) → (init_decide i).pending ≡ true → is_init_phase (init_decide i).phase ≡ true
unfolding init_decide
init_decide-phase i = elim (Bool-cases (not i.requested || i.initialized)) [
  | inl h0 ↦ rw h0 (λ h. ground arith)
  | inr h0 ↦ rw h0 (elim (Bool-cases (not i.upgrade_exists && ltb 0 i.live_replicas)) [
    | inl h1 ↦ rw h1 (λ h. ground arith)
    | inr h1 ↦ rw h1 (elim (Bool-cases (not i.upgrade_exists)) [
      | inl h2 ↦ rw h2 (λ h. ground arith)
      | inr h2 ↦ rw h2 (elim (Bool-cases (i.upgrade_phase == upgrade_phase_succeeded)) [
        | inl h3 ↦ rw h3 (λ h. ground arith)
        | inr h3 ↦ rw h3 (elim (Bool-cases (i.upgrade_phase == upgrade_phase_failed)) [
          | inl h4 ↦ rw h4 (λ h. ground arith)
          | inr h4 ↦ rw h4 (λ h. ground arith)
        ])
      ])
    ])
  ])
]

pub record IsSafe (inst : OdooInstance) (r : InitReads) (p : InitPass) : Type 0 where
  pub stays :
      (d : InitDecision)
      → p.decision ≡ some d
      → inst.status.initialized ≡ true
      → (d.initialized ≡ true) × (d.pending ≡ false)
  pub justified :
      (d : InitDecision)
      → p.decision ≡ some d
      → d.initialized ≡ true
      → (inst.status.initialized ≡ true)
        ⊎ (InitSucceeded inst r
            ⊎ (IsMissing r × (live : ℕ) × (r.deployment ≡ got live) × (0 < live)))
  pub holds :
      (d : InitDecision) (live : ℕ)
      → p.decision ≡ some d
      → d.pending ≡ true
      → IsMissing r
      → r.deployment ≡ got live
      → live ≡ 0
  pub asks : (new : NewUpgrade) → p.asked ≡ some new → IsNeeded inst r new
  pub phased :
      (d : InitDecision) → p.decision ≡ some d → d.pending ≡ true → is_init_phase d.phase ≡ true

-- What the pass does once its facts are there.
pub record Applied (inst : OdooInstance) (r : InitReads) (i : InitInput) (p : InitPass)
    : Type 0 where
  pub decided : (d : InitDecision) → p.decision ≡ some d → d ≡ init_decide i
  pub asked :
      (new : NewUpgrade)
      → p.asked ≡ some new
      → ((init_decide i).ensure_upgrade ≡ true)
        × (r.secret ≡ none)
        × (s : InitializeSpec) × (inst.spec.initialize ≡ some s)
        × (new ≡ init_new_upgrade inst s (init_decide i).upgrade_name)

pub check_secret-none :
    (inst : OdooInstance) (s : InitializeSpec) (a : Option ApiError)
    → check_init_secret inst s a ≡ none
    → a ≡ none
unfolding check_init_secret
check_secret-none inst s none h = refl
check_secret-none inst s (some e) h = ground arith

pub not_initialized :
    (i : InitInput) → (init_decide i).ensure_upgrade ≡ true → i.initialized ≡ false
unfolding init_decide
not_initialized i h = ground arith
