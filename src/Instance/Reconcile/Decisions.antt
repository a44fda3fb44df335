-- ===== src/Instance/Reconcile/Decisions.antt =====
-- The two decisions of a pass: whether the database is initialised, and which revision runs.
use odoo_k8_operator.Base.{
  String, true, Option, none, some, ◌≡◌, refl, ap, ◌∙◌, ◌⊎◌, inl, inr, Bool-cases,
}
use odoo_k8_operator.Errors.{Error}
use odoo_k8_operator.Api.Instance.{OdooInstance, OdooInstanceStatus}
use odoo_k8_operator.Kube.{ObjectMeta}
use odoo_k8_operator.Names.{gate_upgrade_name}
use odoo_k8_operator.Instance.Gate.{gate_new_upgrade, NewUpgrade, GateDecision, gate_addons_rollout}
use odoo_k8_operator.Instance.Gate.Allowed.{is_gate_phase}
use odoo_k8_operator.Instance.Gate.Rollout.{gate_addons_rollout-IsSafe}
use odoo_k8_operator.Instance.Init.{
  init_new_upgrade, InitDecision, decide_initialization, init_hold_gate,
}
use odoo_k8_operator.Instance.Init.Start.{decide_initialization-IsSafe}
use odoo_k8_operator.Instance.Pass.{
  InstanceWrite, InstanceReads, InstanceTools, pure, set_status, ◌>>=◌, ◌>>◌,
}
use odoo_k8_operator.Instance.Pass.Runs.{
  Runs, Stays, Idle, pure-Runs, raise-Runs, write-Runs, then-Runs, to-Runs, set_status-Runs,
}
use odoo_k8_operator.Instance.Parts.Steps.{ask, decided, initialization, rolling, holding, gating}
use odoo_k8_operator.Instance.Reconcile.Safe.{started, IsOwnUpgrade, Allowed}

module _ (t : InstanceTools) (r : InstanceReads) (inst : OdooInstance) where
  abbrev P : InstanceWrite → Type 0
  P = Allowed t r inst

  -- The spec and the metadata in memory are those that were read.
  pub record IsOf (i : OdooInstance) : Type 0 where
    pub spec : i.spec ≡ inst.spec
    pub meta : i.meta ≡ inst.meta

  ask-Runs :
      (o : Option NewUpgrade) (i : OdooInstance)
      → ((u : NewUpgrade) → o ≡ some u → IsOwnUpgrade t r inst u)
      → Runs P (Idle i) (ask t r o i)
  ask-Runs none i h = pure-Runs P (Idle i) tt i (tt, refl)
  ask-Runs (some u) i h = write-Runs P (Idle i) none _ i (h u refl) (tt, refl)

  init_upgrade-IsOwnUpgrade :
      (u : NewUpgrade)
      → (decide_initialization (started inst) r.init).asked ≡ some u
      → IsOwnUpgrade t r inst u
  unfolding init_new_upgrade
  init_upgrade-IsOwnUpgrade u h =
      let n = (decide_initialization-IsSafe (started inst) r.init).asks u h in
      record {
        named = inl (ap (λ (x : NewUpgrade). x.name) n.as_asked);
        beside = ap (λ (x : NewUpgrade). x.namespace) n.as_asked;
        for_it = ap (λ (x : NewUpgrade). x.spec.instance_ref.name) n.as_asked;
      }

  gate_upgrade-IsOwnUpgrade :
      (hash : String) (i : OdooInstance) (u : NewUpgrade)
      → i.meta ≡ inst.meta
      → (gate_addons_rollout i r.gate hash).asked ≡ some u
      → IsOwnUpgrade t r inst u
  unfolding gate_new_upgrade
  gate_upgrade-IsOwnUpgrade hash i u same h =
      let n = (gate_addons_rollout-IsSafe i r.gate hash).asks u h in
      record {
        named = inr (
          hash,
          ap (λ (x : NewUpgrade). x.name) n.as_asked
              ∙ ap (λ (m : ObjectMeta). gate_upgrade_name m.name hash) same,
        );
        beside =
            ap (λ (x : NewUpgrade). x.namespace) n.as_asked
            ∙ ap (λ (m : ObjectMeta). m.namespace) same;
        for_it =
            ap (λ (x : NewUpgrade). x.spec.instance_ref.name) n.as_asked
            ∙ ap (λ (m : ObjectMeta). m.name) same;
      }

  decided-Runs :
      {A : Type 0} (o : Option A) (e : Option Error) (i : OdooInstance)
      → Runs P (Stays i (λ a. o ≡ some a)) (decided t r o e i)
  decided-Runs (some a) e i = pure-Runs P _ a i (refl, refl)
  decided-Runs none (some e) i = raise-Runs P _ e i
  decided-Runs none none i = raise-Runs P _ _ i

  -- What is known after decideInitialization.
  pub record IsDecided (dec : InitDecision) (i : OdooInstance) : Type 0 where
    pub decision : (decide_initialization (started inst) r.init).decision ≡ some dec
    pub of : IsOf i
    pub applied : i.status.applied_addons_hash ≡ inst.status.applied_addons_hash

  pub initialization-Runs : Runs P IsDecided (initialization t r (started inst))
  unfolding initialization
  initialization-Runs =
      let p = decide_initialization (started inst) r.init in
      let keep = λ (dec : InitDecision) (st : OdooInstanceStatus). record st {
        initialized = dec.initialized;
        init_upgrade = dec.upgrade_name;
      } in
      then-Runs P (λ (u : Unit {0}). Unit {0}) IsDecided (ask t r p.asked)
        (λ u. decided t r p.decision p.error >>= λ dec. set_status (keep dec) >> pure dec)
        (started inst) (ask-Runs p.asked (started inst) init_upgrade-IsOwnUpgrade)
        (λ u q.
          then-Runs P (λ (dec : InitDecision). p.decision ≡ some dec) IsDecided
            (decided t r p.decision p.error) (λ dec. set_status (keep dec) >> pure dec)
            (started inst) (decided-Runs p.decision p.error (started inst))
            (λ dec e.
              to-Runs P (λ (u : Unit {0}). Unit {0}) IsDecided (set_status (keep dec))
                (λ u. pure dec) (started inst)
                (record (started inst) { status = keep dec (started inst).status })
                (set_status-Runs P (keep dec) _ (started inst) (tt, refl))
                (λ u q'. pure-Runs P IsDecided dec _ (record {
                  decision = e;
                  of = record { spec = refl; meta = refl };
                  applied = refl;
                }))))

  -- What is known after the gate, for the revision of the ready addons.
  pub record IsGated (hash : String) (gate : GateDecision) (i : OdooInstance) : Type 0 where
    pub revision :
        (gate.template_hash ≡ inst.status.applied_addons_hash) ⊎ (gate.template_hash ≡ hash)
    pub phase : is_gate_phase gate.phase ≡ true
    pub of : IsOf i

  rolling-Runs :
      (hash : String) (dec : InitDecision) (i : OdooInstance)
      → IsDecided dec i
      → Runs P (IsGated hash) (rolling t r hash i)
  unfolding rolling
  rolling-Runs hash dec i k =
      let p = gate_addons_rollout i r.gate hash in
      let safe = gate_addons_rollout-IsSafe i r.gate hash in
      let keep = λ (st : OdooInstanceStatus). p.instance_after.status in
      then-Runs P (λ (u : Unit {0}). Unit {0}) (IsGated hash) (ask t r p.asked)
        (λ u. decided t r p.decision p.error >>= λ gate. set_status keep >> pure gate) i
        (ask-Runs p.asked i (λ u e. gate_upgrade-IsOwnUpgrade hash i u k.of.meta e))
        (λ u q.
          then-Runs P (λ (gate : GateDecision). p.decision ≡ some gate) (IsGated hash)
            (decided t r p.decision p.error) (λ gate. set_status keep >> pure gate) i
            (decided-Runs p.decision p.error i)
            (λ gate e.
              to-Runs P (λ (u : Unit {0}). Unit {0}) (IsGated hash) (set_status keep)
                (λ u. pure gate) i (record i { status = p.instance_after.status })
                (set_status-Runs P keep _ i (tt, refl))
                (λ u q'.
                  pure-Runs P (IsGated hash) gate (record i { status = p.instance_after.status })
                    (record {
                      revision = elim (safe.old_or_new gate e) [
                        | inl a ↦ inl (a ∙ k.applied)
                        | inr b ↦ inr b
                      ];
                      phase = safe.phased gate e;
                      of = record { spec = k.of.spec; meta = k.of.meta };
                    }))))

  holding-Runs :
      (hash : String) (dec : InitDecision) (i : OdooInstance)
      → IsDecided dec i
      → Runs P (IsGated hash) (holding t r hash i)
  unfolding holding init_hold_gate
  holding-Runs hash dec i k =
      let keep = λ (st : OdooInstanceStatus). (init_hold_gate i hash).0.status in
      let gate = (init_hold_gate i hash).1 in
      to-Runs P (λ (u : Unit {0}). Unit {0}) (IsGated hash) (set_status keep) (λ u. pure gate) i
        (record i { status = keep i.status }) (set_status-Runs P keep _ i (tt, refl))
        (λ u q.
          pure-Runs P (IsGated hash) gate (record i { status = keep i.status })
            (record {
              revision = inr refl;
              phase = refl;
              of = record { spec = k.of.spec; meta = k.of.meta };
            }))

  pub gating-Runs :
      (hash : String) (dec : InitDecision) (i : OdooInstance)
      → IsDecided dec i
      → Runs P (IsGated hash) (gating t r dec hash i)
  unfolding gating
  gating-Runs hash dec i k = elim (Bool-cases dec.pending) [
    | inl h ↦ rw h (holding-Runs hash dec i k)
    | inr h ↦ rw h (rolling-Runs hash dec i k)
  ]
