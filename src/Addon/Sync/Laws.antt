-- ===== src/Addon/Sync/Laws.antt =====
-- What a pass over an OdooAddon may do.
use odoo_k8_operator.Base.{
  ℕ, String, true, false, ◌==◌, List, Option, none, some, ◌≡◌, ◌≢◌, refl, sym, ◌∙◌, subst, ◌⊎◌, inl,
  inr, arith, eq_iff, Option-cases, Bool-cases,
}
use odoo_k8_operator.Kube.{got, Condition}
use odoo_k8_operator.Kube.Batch.{Job, NewJob}
use odoo_k8_operator.Kube.Retry.{is_already_exists}
use odoo_k8_operator.PodLogs.{read_job_logs}
use odoo_k8_operator.Addon.Output.{SyncOutput, no_output, output, read_sync_output}
use odoo_k8_operator.Errors.{Error}
use odoo_k8_operator.Machinery.{Machinery}
use odoo_k8_operator.Api.{OdooAddon, OdooAddonStatus}
use odoo_k8_operator.Api.Instance.{OdooInstance}
use odoo_k8_operator.Names.{addons_pvc_name}
use odoo_k8_operator.JobStatus.{odoo_pod_node}
use odoo_k8_operator.Addon.Job.{job_options, build_sync_job}
use odoo_k8_operator.Api.Reasons.{reason_sync_failed}
use odoo_k8_operator.Conditions.Addon.{addon_failure_reason}
use odoo_k8_operator.Phases.{phase_synced, phase_syncing}
use odoo_k8_operator.Addon.Spec.{SyncSpec, Resolved, refused_spec, resolved, resolve_sync_spec}
use odoo_k8_operator.Addon.Spec.Says.{refused_spec-says}
use odoo_k8_operator.Addon.Status.{
  AddonMutate, write_addon_status, failed_status, failed_sync_status, synced_status, pending_status,
  phase_status, phase_reason, addon_next_status,
}
use odoo_k8_operator.Addon.Pass.{SyncTools, SyncReads, SyncPass, end, logs_text}
use odoo_k8_operator.Addon.Sync.{
  write_end, mark_failed, pending, set_phase, then_delete, finish_failed_sync_job,
  record_sync_success, record_sync_failure, delete_then, create_then, sync_input,
}
use odoo_k8_operator.Addon.Sync.Allowed.{Evidence, IsGood, Fits}

module _ (k : Machinery) (tools : SyncTools) (r : SyncReads) (addon : OdooAddon) where
  pub end-Fits : (n : ℕ) (e : Option Error) → Fits tools r addon (end n e)
  unfolding end
  end-Fits n e = record {
    written = λ st h. ground arith;
    deleted = λ job h. ground arith;
    created = λ s h. ground arith;
  }

  write-next :
      (reason msg : String) (m : AddonMutate) (st : OdooAddonStatus)
      → (write_addon_status k r.recorder r.update addon reason msg m).written ≡ some st
      → st ≡ record (m addon.status) { conditions = st.conditions }
  unfolding write_addon_status addon_next_status
  write-next reason msg m st h = ground (arith, Option-cases r.update)

  write_end-Fits :
      (reason msg : String) (m : AddonMutate) (n : ℕ)
      → ((cs : List Condition) → IsGood tools r addon (record (m addon.status) { conditions = cs }))
      → Fits tools r addon (write_end k tools r addon reason msg m n)
  unfolding write_end end
  write_end-Fits reason msg m n good =
      let w = write_addon_status k r.recorder r.update addon reason msg m in
      elim (Option-cases w.error) [
        | inl e ↦ record {
          written = λ st h.
              subst (IsGood tools r addon) (sym (write-next reason msg m st (ground arith)))
                (good st.conditions);
          deleted = λ job h. ground arith;
          created = λ s h. ground arith;
        }
        | inr (x, e) ↦ record {
          written = λ st h. ground arith;
          deleted = λ job h. ground arith;
          created = λ s h. ground arith;
        }
      ]

  -- A status that is not Synced is good where it is not ready.
  unsynced-IsGood :
      (st : OdooAddonStatus)
      → (st.phase == phase_synced) ≡ false
      → st.ready ≡ false
      → IsGood tools r addon st
  unsynced-IsGood st p q = record {
    consistent = λ c. q ∙ sym p;
    synced = λ h. ground (arith, eq_iff st.phase phase_synced);
  }

  pub mark_failed-Fits :
      (reason msg : String) → Fits tools r addon (mark_failed k tools r addon reason msg)
  unfolding mark_failed failed_status
  mark_failed-Fits reason msg =
      write_end-Fits reason msg (failed_status r.now msg) _ (λ cs. unsynced-IsGood _ refl refl)

  pub pending-Fits : (reason msg : String) → Fits tools r addon (pending k tools r addon reason msg)
  unfolding pending pending_status
  pending-Fits reason msg =
      write_end-Fits reason msg pending_status _ (λ cs. unsynced-IsGood _ refl refl)

  set_syncing-Fits :
      (n : ℕ)
      → (addon.status.phase ≢ phase_synced)
      → Fits tools r addon (set_phase k tools r addon phase_syncing n)
  unfolding set_phase phase_status
  set_syncing-Fits n ne =
      let (reason, msg) = phase_reason k phase_syncing addon in
      write_end-Fits reason msg (phase_status phase_syncing) n (λ cs. record {
        consistent = λ c. c ∙ ground (arith, eq_iff addon.status.phase phase_synced);
        synced = λ h. ground (arith, eq_iff phase_syncing phase_synced);
      })

  -- The phases that a decision may set without a result.
  pub set_phase-Fits :
      (phase : String) (n : ℕ)
      → ((phase ≡ "") ⊎ ((phase ≡ phase_syncing) × (addon.status.phase ≢ phase_synced)))
      → Fits tools r addon (set_phase k tools r addon phase n)
  unfolding set_phase phase_status
  set_phase-Fits phase n (inl e) =
      let (reason, msg) = phase_reason k phase addon in
      write_end-Fits reason msg (phase_status phase) n (λ cs. record {
        consistent = λ c. ground (arith, eq_iff phase "");
        synced = λ h. inl (ground (arith, eq_iff phase ""), ground (arith, eq_iff phase ""));
      })
  set_phase-Fits phase n (inr (e, ne)) =
      subst (λ p. Fits tools r addon (set_phase k tools r addon p n)) (sym e)
        (set_syncing-Fits n ne)

  module _ (job : Job) (j : r.job ≡ got (some job)) (c : tools.controlled job addon ≡ true) where
    then_delete-Fits :
        (p : SyncPass) → Fits tools r addon p → Fits tools r addon (then_delete k tools r job p)
    unfolding then_delete
    then_delete-Fits p f = elim (Option-cases p.error) [
      | inl e ↦ record {
        written = λ st h. f.written st (ground arith);
        deleted = λ x h. (ground arith, ground arith);
        created = λ s h. f.created s (ground arith);
      }
      | inr (x, e) ↦ record {
        written = λ st h. f.written st (ground arith);
        deleted = λ y h. f.deleted y (ground arith);
        created = λ s h. f.created s (ground arith);
      }
    ]

    pub delete_then-Fits :
        (p : SyncPass)
        → Fits tools r addon p
        → Fits tools r addon (delete_then k tools r (some job) p)
    unfolding delete_then end
    delete_then-Fits p f = record {
      written = λ st h. f.written st (ground arith);
      deleted = λ x h. (ground arith, ground arith);
      created = λ s h. f.created s (ground arith);
    }

    finish_failed-Fits :
        (reason msg : String)
        → Fits tools r addon (finish_failed_sync_job k tools r addon job reason msg)
    unfolding finish_failed_sync_job failed_sync_status
    finish_failed-Fits reason msg = then_delete-Fits _ (
        write_end-Fits reason msg (failed_sync_status r.now msg) _
          (λ cs. unsynced-IsGood _ refl refl))

    pub record_failure-Fits : Fits tools r addon (record_sync_failure k tools r addon job)
    unfolding record_sync_failure
    record_failure-Fits =
        finish_failed-Fits (addon_failure_reason (logs_text (read_job_logs r.logs job))) _

    pub record_success-Fits :
        ((commit : String) (modules : List String)
          → read_sync_output job (read_job_logs r.logs job) ≡ output commit modules
          → (cs : List Condition)
          → Evidence tools r addon
              (record (synced_status r.now commit modules addon.status) { conditions = cs }))
        → (o : SyncOutput) → (read_sync_output job (read_job_logs r.logs job) ≡ o)
        → Fits tools r addon (record_sync_success k tools r addon job o)
    unfolding record_sync_success synced_status
    record_success-Fits ev (no_output e) same = finish_failed-Fits reason_sync_failed _
    record_success-Fits ev (output commit modules) same = then_delete-Fits _ (
        write_end-Fits "" "" (synced_status r.now commit modules) _
          (λ cs. record { consistent = λ c. refl; synced = λ h. inr (ev commit modules same cs) }))

  -- What the facts of a pass say of what it read.
  pub resolved-valid :
      (spec : Resolved) (job : Option Job)
      → resolve_sync_spec tools.parse_url addon ≡ spec
      → ((sync_input k tools r addon spec job).spec_err == "") ≡ true
      → (s : SyncSpec) × (spec ≡ resolved s)
  unfolding sync_input
  resolved-valid (resolved s) job same h = (s, refl)
  resolved-valid (refused_spec e) job same h =
      ground (arith, refused_spec-says tools.parse_url addon e same)

  -- The Job that a pass creates is the one that it was given the spec for, or one of what follows.
  create_then-created :
      (inst : OdooInstance) (pvc_name : String) (s : SyncSpec) (p : SyncPass) (j : NewJob)
      → (create_then k tools r addon inst pvc_name (resolved s) p).created ≡ some j
      → (p.created ≡ some j)
        ⊎ (j
            ≡ build_sync_job tools.digest addon s
                (job_options r.image inst pvc_name (odoo_pod_node r.pods)))
  unfolding create_then end
  create_then-created inst pvc_name s p j h = elim (Option-cases r.set_owner) [
    | inr (x, e) ↦ absurd (ground arith)
    | inl e ↦ elim (Option-cases r.create) [
      | inl c ↦ inr (ground arith)
      | inr (x, c) ↦ elim (Bool-cases (is_already_exists x)) [
        | inl b ↦ inl (ground arith)
        | inr b ↦ absurd (ground arith)
      ]
    ]
  ]

  pub create_then-Fits :
      (inst : OdooInstance) (spec : Resolved) (p : SyncPass)
      → resolve_sync_spec tools.parse_url addon ≡ spec
      → r.job ≡ got none
      → (r.instance_reply ≡ got inst) × (r.claim ≡ got "Bound")
      → Fits tools r addon p
      → Fits tools r addon
          (create_then k tools r addon inst (addons_pvc_name inst.meta.name) spec p)
  unfolding create_then end
  create_then-Fits inst (refused_spec e) p same j volume f = f
  create_then-Fits inst (resolved s) p same none_there (was_read, bound) f = record {
    written = λ st h. f.written st (ground arith);
    deleted = λ x h. f.deleted x (ground arith);
    created = λ j h. elim (create_then-created inst _ s p j h) [
      | inl e ↦ f.created j e
      | inr e ↦ record {
        spec = s;
        inst = inst;
        none_there = none_there;
        valid = same;
        was_read = was_read;
        bound = bound;
        built = e;
      }
    ];
  }
