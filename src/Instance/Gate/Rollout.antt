-- ===== src/Instance/Gate/Rollout.antt =====
-- Every pass of gateAddonsRollout is safe.
use odoo_k8_operator.Base.{
  String, Bool, true, false, ◌&&◌, not, ◌==◌, is_some, if◌then◌else◌, Option, none, some, ◌≡◌, ◌≢◌,
  inl, inr, refl, sym, ◌∙◌, ap, arith, eq_iff, Bool-cases, Option-cases, subst,
}
use odoo_k8_operator.Kube.{Reply, got, refused}
use odoo_k8_operator.Kube.Retry.{is_not_found}
use odoo_k8_operator.Errors.{Error}
use odoo_k8_operator.Api.{OdooUpgrade}
use odoo_k8_operator.Api.Instance.{OdooInstance, UpgradeSpec}
use odoo_k8_operator.Names.{gate_upgrade_name}
use odoo_k8_operator.Instance.Gate.{
  GateInput, GateReads, GatePass, NewUpgrade, gate_decide, gate_input, gate_finish, gate_create,
  gate_apply, gate_read, gate_addons_rollout, gate_new_upgrade, create_error,
}
use odoo_k8_operator.Instance.Gate.Laws.{gate_decide-IsRollout, IsGated, Opens}
use odoo_k8_operator.Instance.Gate.Allowed.{
  HasSucceeded, IsNeeded, is_gate_phase, gate_decide-phase, IsSafe, Applied,
}

module _ (inst : OdooInstance) (r : GateReads) where
  finish-Applied :
      (i : GateInput) (msg : String)
      → Applied inst r i (gate_finish inst i msg none (gate_decide i))
  unfolding gate_finish
  finish-Applied i msg = record {
    decided = λ d h. ground arith;
    stored = λ d h. ground arith;
    asked = λ n h. ground arith;
    kept = λ h. ground arith;
    of_phase = λ d h. ground arith;
  }

  create-Applied :
      (i : GateInput) (msg : String) (u : Option UpgradeSpec)
      → (inst.spec.upgrade ≡ u)
      → ((gate_decide i).ensure_upgrade ≡ true)
      → Applied inst r i (gate_create inst i msg r (gate_decide i) u)
  unfolding gate_create gate_finish
  create-Applied i msg none s e = finish-Applied i msg
  create-Applied i msg (some u) s e =
      elim (Option-cases (create_error i.upgrade_name r.set_owner r.create)) [
        | inl n ↦ record {
          decided = λ d h. ground arith;
          stored = λ d h. ground arith;
          asked = λ new h. (e, u, s, ground arith);
          kept = λ h. ground arith;
          of_phase = λ d h. ground arith;
        }
        | inr (x, n) ↦ record {
          decided = λ d h. ground arith;
          stored = λ d h. ground arith;
          asked = λ new h. (e, u, s, ground arith);
          kept = λ h. ground arith;
          of_phase = λ d h. ground arith;
        }
      ]

  apply-Applied : (i : GateInput) (msg : String) → Applied inst r i (gate_apply inst r msg i)
  unfolding gate_apply
  apply-Applied i msg = elim (Bool-cases (gate_decide i).ensure_upgrade) [
    | inl e ↦
        subst
          (λ b. Applied inst r i (
            if b
            then gate_create inst i msg r (gate_decide i) inst.spec.upgrade
            else gate_finish inst i msg none (gate_decide i)))
          (sym e) (create-Applied i msg inst.spec.upgrade refl e)
    | inr e ↦
        subst
          (λ b. Applied inst r i (
            if b
            then gate_create inst i msg r (gate_decide i) inst.spec.upgrade
            else gate_finish inst i msg none (gate_decide i)))
          (sym e) (finish-Applied i msg)
  ]

  module _ (current : String) where
    -- The facts are those of this instance and this revision.
    record IsOf (i : GateInput) : Type 0 where
      of_set : i.upgrade_set ≡ is_some inst.spec.upgrade
      of_applied : i.applied ≡ inst.status.applied_addons_hash
      of_current : i.current ≡ current

    apply-IsSafe :
        (i : GateInput) (msg : String)
        → IsOf i
        → (Opens i → HasSucceeded inst r)
        → ((new : NewUpgrade) (u : UpgradeSpec)
            → IsGated i
            → i.current ≢ i.applied
            → i.upgrade_exists ≡ false
            → (inst.spec.upgrade ≡ some u)
            → new ≡ gate_new_upgrade inst u i.upgrade_name
            → IsNeeded inst r current new)
        → IsSafe inst r current (gate_apply inst r msg i)
    apply-IsSafe i msg of opened needed =
        let a = apply-Applied i msg in
        let g = gate_decide-IsRollout i in
        record {
          recorded = λ d h. a.stored d h ∙ g.recorded ∙ sym (a.decided d h);
          old_or_new = λ d h. elim g.old_or_new [
            | inl e ↦ inl (a.decided d h ∙ e ∙ of.of_applied)
            | inr e ↦ inr (a.decided d h ∙ e ∙ of.of_current)
          ];
          opens = λ d h set applied ne. elim g.old_or_new [
            | inl e ↦ absurd (ne (a.decided d h ∙ e ∙ of.of_applied))
            | inr e ↦ opened (
                g.opens
                  (record {
                    set = of.of_set ∙ set;
                    applied = ap (λ (x : String). x == "") of.of_applied ∙ applied;
                  })
                  (λ same. ne (a.decided d h ∙ e ∙ same ∙ of.of_applied)) e)
          ];
          asks = λ new h.
              let (e, u, s, n) = a.asked new h in
              let (gated, ne, missing, same) = g.ensures e in needed new u gated ne missing s n;
          keeps = a.kept;
          phased = λ d h. ap is_gate_phase (a.of_phase d h) ∙ gate_decide-phase i;
        }

    stop-IsSafe :
        (e : Error)
        → IsSafe inst r current
            (record { decision = none; asked = none; instance_after = inst; error = some e })
    stop-IsSafe e = record {
      recorded = λ d h. ground arith;
      old_or_new = λ d h. ground arith;
      opens = λ d h s a n. ground arith;
      asks = λ n h. ground arith;
      keeps = λ h. refl;
      phased = λ d h. ground arith;
    }

    if-IsSafe :
        (b : Bool) (p q : GatePass)
        → (b ≡ true → IsSafe inst r current p)
        → (b ≡ false → IsSafe inst r current q)
        → IsSafe inst r current (if b then p else q)
    if-IsSafe true p q f g = f refl
    if-IsSafe false p q f g = g refl

    read-IsSafe :
        (i : GateInput) (reply : Reply OdooUpgrade)
        → IsOf i
        → i.upgrade_name ≡ gate_upgrade_name inst.meta.name current
        → i.upgrade_exists ≡ false
        → r.upgrade ≡ reply
        → IsSafe inst r current (gate_read inst r i reply)
    unfolding gate_read
    read-IsSafe i (refused e) of named none_yet read =
        if-IsSafe (is_not_found e) _ _
          (λ missing.
            apply-IsSafe i "" of (λ o. ground (arith, o.exists))
              (λ new u gated ne m s n. record {
                spec = u;
                spec_set = s;
                error = e;
                was_read = read;
                missing = missing;
                as_asked = n ∙ ap (gate_new_upgrade inst u) named;
              }))
          (λ h. stop-IsSafe _)
    read-IsSafe i (got up) of named none_yet read =
        if-IsSafe (not (up.spec.instance_ref.name == inst.meta.name)) _ _ (λ h. stop-IsSafe _)
          (λ h.
            apply-IsSafe (record i { upgrade_exists = true; upgrade_phase = up.status.phase })
              up.status.message
              (record {
                of_set = of.of_set;
                of_applied = of.of_applied;
                of_current = of.of_current;
              })
              (λ o. record {
                upgrade = up;
                was_read = read;
                of_instance = ground arith;
                succeeded = o.succeeded;
              })
              (λ new u gated ne m s n. ground arith))

    -- Whatever a pass of the rollout gate reads, it records the revision that the pods run, and the
    -- pods run the applied revision or the current one. Where spec.upgrade is set and a revision is
    -- applied, they leave it only when the pass read an OdooUpgrade of this instance, under the name
    -- of the current revision, that Succeeded; the pass asks for an OdooUpgrade only where it read
    -- that there is none, and for the one of spec.upgrade; an error leaves the status as it was; and
    -- the phase that it shows is none, Upgrading or UpgradeFailed.
    pub gate_addons_rollout-IsSafe : IsSafe inst r current (gate_addons_rollout inst r current)
    unfolding gate_addons_rollout gate_input
    gate_addons_rollout-IsSafe =
        let i = gate_input inst current in
        if-IsSafe (i.upgrade_set && not (i.applied == "") && not (i.applied == current)) _ _
          (λ h.
            read-IsSafe (record i { upgrade_name = gate_upgrade_name inst.meta.name current })
              r.upgrade (record { of_set = refl; of_applied = refl; of_current = refl }) refl refl
              refl)
          (λ h.
            apply-IsSafe i "" (record { of_set = refl; of_applied = refl; of_current = refl })
              (λ o. ground (arith, o.exists))
              (λ new u gated ne m s n.
                ground (arith, gated.set, gated.applied, eq_iff i.applied current)))
