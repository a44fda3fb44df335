-- ===== src/Instance/Reconcile/Rollout.antt =====
-- The end of a pass, from the Deployments to the status.
use odoo_k8_operator.Base.{
  ℤ, pos, String, Bool, true, false, if◌then◌else◌, List, none, ◌≡◌, refl, subst, inl, inr,
  Bool-cases,
}
use odoo_k8_operator.Kube.{Reply, got, refused}
use odoo_k8_operator.Kube.Meta.{IsLawful}
use odoo_k8_operator.Kube.Retry.{is_not_found}
use odoo_k8_operator.Api.Instance.{OdooInstance, OdooInstanceStatus}
use odoo_k8_operator.Instance.Gate.{GateDecision}
use odoo_k8_operator.Instance.Gate.Allowed.{is_gate_phase}
use odoo_k8_operator.Instance.Init.{InitDecision}
use odoo_k8_operator.Instance.Init.Allowed.{is_init_phase}
use odoo_k8_operator.Instance.Init.Start.{decide_initialization-IsSafe}
use odoo_k8_operator.Instance.Config.{cron_enabled}
use odoo_k8_operator.Instance.Workload.{RolloutHashes, desired_replicas}
use odoo_k8_operator.Instance.Pass.{
  InstanceWrite, wrote_cron, stored_status, InstanceReads, InstanceTools, pure, set_status, write,
  delete_step, deleted_cron, lift, CronSeen, api_error, ◌>>=◌, ◌>>◌,
}
use odoo_k8_operator.Instance.Pass.Runs.{
  Runs, Stays, Idle, pure-Runs, raise-Runs, lift-Runs, write-Runs, then-Runs, to-Runs,
  set_status-Runs,
}
use odoo_k8_operator.Instance.Cron.{
  CronOutcome, cron_replicas, cron_deployment, delete_read, delete_cron_deployment,
  reconcile_cron_deployment, cron_off, cron_on, cron_gone, cron_running, reconcile_cron,
}
use odoo_k8_operator.Names.{cron_deployment_name}
use odoo_k8_operator.Instance.Parts.{Findings, Outcome}
use odoo_k8_operator.Instance.Parts.Steps.{reconcile_deployment, reconcile_service, reconcile_pdb}
use odoo_k8_operator.Instance.Reconcile.{settle, settled, roll_out, final_status}
use odoo_k8_operator.Instance.Reconcile.Ready.{IsStatus, final_status-IsStatus}
use odoo_k8_operator.Instance.Reconcile.Decisions.{IsOf}
use odoo_k8_operator.Instance.Reconcile.Safe.{
  started, IsRollout, IsCron, Allowed, delete_step-Runs, reconcile_pdb-Runs,
}

module _ (t : InstanceTools) (r : InstanceReads) (inst : OdooInstance) where
  abbrev P : InstanceWrite → Type 0
  P = Allowed t r inst

  abbrev Anything : {A : Type 0} → OdooInstance → A → OdooInstance → Type 0
  Anything {A} i = Stays i (λ (a : A). Unit {0})

  delete_cron-Runs :
      cron_enabled inst.spec.cron ≡ false
      → (i : OdooInstance) → Runs P (Anything i) (delete_cron_deployment r inst i)
  unfolding delete_cron_deployment delete_read
  delete_cron-Runs off i = of_reply r.cron refl
    where
      of_reply :
          (reply : Reply Bool) → r.cron ≡ reply → Runs P (Anything i) (delete_read r inst reply i)
      of_reply (refused e) h = elim (Bool-cases (is_not_found e)) [
        | inl k ↦ rw k (pure-Runs P (Anything i) false i (tt, refl))
        | inr k ↦ rw k (raise-Runs P (Anything i) _ i)
      ]
      of_reply (got false) h = pure-Runs P (Anything i) false i (tt, refl)
      of_reply (got true) h =
          then-Runs P (λ (u : Unit {0}). Unit {0}) (Anything i)
            (delete_step r.delete_cron (deleted_cron (cron_deployment_name inst.meta.name)))
            (λ u. pure true) i
            (delete_step-Runs t r inst r.delete_cron
              (deleted_cron (cron_deployment_name inst.meta.name)) i (h, off))
            (λ u q. pure-Runs P (Anything i) true i (tt, refl))

  cron_deployment-Runs :
      (hashes : RolloutHashes) (n : ℤ)
      → IsCron t r inst (cron_deployment inst hashes n)
      → (i : OdooInstance) → Runs P (Anything i) (reconcile_cron_deployment r inst hashes n i)
  unfolding reconcile_cron_deployment
  cron_deployment-Runs hashes n is i =
      let w = wrote_cron (cron_deployment inst hashes n) in
      then-Runs P (λ (seen : CronSeen). Unit {0}) (Anything i) (lift r.write_cron)
        (λ seen. write none w >> pure seen) i
        (lift-Runs P (Anything i) r.write_cron i (λ seen e. (tt, refl)))
        (λ seen q.
          then-Runs P (λ (u : Unit {0}). Unit {0}) (Anything i) (write none w) (λ u. pure seen) i
            (write-Runs P (Idle i) none w i is (tt, refl))
            (λ u q'. pure-Runs P (Anything i) seen i (tt, refl)))

  module _ (hashes : RolloutHashes) (dec : InitDecision) (is : IsRollout t r inst hashes dec) where
    reconcile_cron-Runs :
        (i : OdooInstance) → Runs P (Anything i) (reconcile_cron r inst hashes dec.pending i)
    unfolding reconcile_cron cron_off cron_on cron_replicas
    reconcile_cron-Runs i = elim (Bool-cases (cron_enabled inst.spec.cron)) [
      | inl on ↦ rw on (
          then-Runs P (λ (seen : CronSeen). Unit {0}) (Anything i)
            (reconcile_cron_deployment r inst hashes (cron_replicas dec.pending))
            (λ seen. pure (cron_running inst dec.pending seen)) i
            (cron_deployment-Runs hashes (cron_replicas dec.pending)
              (record { hashes = hashes; dec = dec; rollout = is; as_built = refl; enabled = on })
              i)
            (λ seen q. pure-Runs P (Anything i) (cron_running inst dec.pending seen) i (tt, refl)))
      | inr off ↦ rw off (
          then-Runs P (λ (deleted : Bool). Unit {0}) (Anything i) (delete_cron_deployment r inst)
            (λ deleted. pure (cron_gone inst deleted)) i (delete_cron-Runs off i)
            (λ deleted q. pure-Runs P (Anything i) (cron_gone inst deleted) i (tt, refl)))
    ]

    deployment-Runs :
        (i : OdooInstance)
        → Runs P (Idle i) (
            reconcile_deployment t r inst hashes
              (if dec.pending then pos 0 else desired_replicas inst.spec)
              i)
    unfolding reconcile_deployment
    deployment-Runs i =
        write-Runs P (Idle i) r.write_deployment _ i
          (record { hashes = hashes; dec = dec; rollout = is; as_built = refl }) (tt, refl)

  -- Nothing is asked of the end.
  abbrev pub AtEnd : Outcome → OdooInstance → Type 0
  AtEnd out i = Unit {0}

  settle-Runs :
      (law : IsLawful t.machinery.conditions) (before : OdooInstanceStatus) (f : Findings)
      (i : OdooInstance)
      → IsOf t r inst i
      → f.deployment ≡ r.deployment
      → (f.init.pending ≡ true → is_init_phase f.init.phase ≡ true)
      → is_gate_phase f.gate.phase ≡ true
      → Runs P AtEnd (settle t r before f i)
  unfolding settle
  settle-Runs law before f i of seen h k =
      let st = final_status t r i f in
      let keep = λ (s : OdooInstanceStatus). st in
      let is : IsStatus t r inst.spec st =
        subst (λ s. IsStatus t r s st) of.spec (final_status-IsStatus t law r i f seen h k) in
      let w = write (api_error r.write_status) (stored_status st) in
      let out = settled t r before st f in
      to-Runs P (λ (u : Unit {0}). Unit {0}) AtEnd (set_status keep) (λ u. w >> pure out) i
        (record i { status = st }) (set_status-Runs P keep _ i (tt, refl))
        (λ u q.
          then-Runs P (λ (u : Unit {0}). Unit {0}) AtEnd w (λ u. pure out)
            (record i { status = st })
            (write-Runs P (Idle (record i { status = st })) (api_error r.write_status) _ _ is
              (tt, refl))
            (λ u q'. pure-Runs P AtEnd out (record i { status = st }) tt))

  -- The findings of a pass, where the cron pod is as it was seen.
  abbrev findings : List String → GateDecision → InitDecision → CronOutcome → Findings
  findings paths gate dec cron = record {
    paths = paths;
    gate = gate;
    init = dec;
    deployment = r.deployment;
    cron = cron;
  }

  pub roll_out-Runs :
      (law : IsLawful t.machinery.conditions) (before : OdooInstanceStatus) (paths : List String)
      (gate : GateDecision) (dec : InitDecision) (hashes : RolloutHashes) (i : OdooInstance)
      → IsRollout t r inst hashes dec
      → is_gate_phase gate.phase ≡ true
      → IsOf t r inst i
      → Runs P AtEnd (roll_out t r inst before paths gate dec hashes i)
  unfolding roll_out reconcile_service
  roll_out-Runs law before paths gate dec hashes i is k of =
      let nothing = λ (u : Unit {0}). Unit {0} in
      let last = λ (cron : CronOutcome). settle t r before (findings paths gate dec cron) in
      let crons = reconcile_cron r inst hashes dec.pending >>= last in
      let served = reconcile_service t r inst >> crons in
      then-Runs P nothing AtEnd
        (reconcile_deployment t r inst hashes
          (if dec.pending then pos 0 else desired_replicas inst.spec))
        (λ u. reconcile_pdb t r inst >> served) i (deployment-Runs hashes dec is i)
        (λ u q.
          then-Runs P nothing AtEnd (reconcile_pdb t r inst) (λ u. served) i
            (reconcile_pdb-Runs t r inst i)
            (λ u q.
              then-Runs P nothing AtEnd (reconcile_service t r inst) (λ u. crons) i
                (write-Runs P (Idle i) r.service _ i tt (tt, refl))
                (λ u q.
                  then-Runs P (λ (cron : CronOutcome). Unit {0}) AtEnd
                    (reconcile_cron r inst hashes dec.pending) last i
                    (reconcile_cron-Runs hashes dec is i)
                    (λ cron q.
                      settle-Runs law before (findings paths gate dec cron) i of refl
                        ((decide_initialization-IsSafe (started inst) r.init).phased dec is.decided)
                        k))))
