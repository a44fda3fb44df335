-- ===== src/Addon/State/Laws.antt =====
-- What decideAddonSync decides, on every branch.
use odoo_k8_operator.Base.{
  ◌<◌, ◌≤◌, ◌+◌, true, false, ◌==◌, none, some, ◌≡◌, ◌≢◌, ◌↔◌, ◌⊎◌, inl, inr, arith, eq_iff,
  Option-cases,
}
use odoo_k8_operator.Kube.{Time}
use odoo_k8_operator.Phases.{phase_failed, phase_synced, phase_syncing}
use odoo_k8_operator.Addon.State.{
  SyncInput, SyncDecision, record_success, record_failure, create_job, await_job, cooldown,
  skip_resync, delete_stale_job, sync_interval, decide_addon_sync,
}

-- The Job may be judged: it is there, it is the addon's, and it was built from the valid spec.
pub record IsJudged (i : SyncInput) : Type 0 where
  pub valid : (i.spec_err == "") ≡ true
  pub exists : i.job.exists ≡ true
  pub controlled : i.job.controlled_by_addon ≡ true
  pub same_spec : i.job.spec_hash ≡ i.spec_hash

-- The last attempt is over.
abbrev pub IsCooled : SyncInput → Type 0
IsCooled i =
    (i.last_sync_time ≡ none)
    ⊎ ((last : Time) × (i.last_sync_time ≡ some last) × (last + sync_interval i.phase ≤ i.now))

pub record MayCreate (i : SyncInput) : Type 0 where
  pub valid : (i.spec_err == "") ≡ true
  pub no_job : i.job.exists ≡ false
  pub not_pinned : i.skip_resync ≡ false
  pub cooled : IsCooled i

-- A success is recorded exactly where a Job that the addon controls, built from the current valid
-- spec, succeeded; the time of the last attempt does not matter.
pub success_iff :
    (i : SyncInput)
    → ((decide_addon_sync i).action ≡ record_success) ↔ (IsJudged i × (i.job.succeeded ≡ true))
unfolding decide_addon_sync
success_iff i = (
  λ h. (
    record {
      valid = ground arith;
      exists = ground arith;
      controlled = ground arith;
      same_spec = ground (arith, eq_iff i.job.spec_hash i.spec_hash);
    },
    ground arith,
  ),
  λ (j, s). ground (arith, eq_iff i.job.spec_hash i.spec_hash),
)

-- A failure is recorded exactly where such a Job failed and did not succeed.
pub failure_iff :
    (i : SyncInput)
    → ((decide_addon_sync i).action ≡ record_failure)
      ↔ (IsJudged i × (i.job.succeeded ≡ false) × (i.job.failed ≡ true))
unfolding decide_addon_sync
failure_iff i = (
  λ h. (
    record {
      valid = ground arith;
      exists = ground arith;
      controlled = ground arith;
      same_spec = ground (arith, eq_iff i.job.spec_hash i.spec_hash);
    },
    ground arith,
    ground arith,
  ),
  λ (j, s, f). ground (arith, eq_iff i.job.spec_hash i.spec_hash),
)

-- A Job is created exactly where the spec is valid, there is no Job, the addon is not pinned to a
-- commit that is synced, and the last attempt, if any, is as long ago as its result asks for.
pub create_iff : (i : SyncInput) → ((decide_addon_sync i).action ≡ create_job) ↔ MayCreate i
unfolding decide_addon_sync
create_iff i = (
  λ h. record {
    valid = ground arith;
    no_job = ground arith;
    not_pinned = ground arith;
    cooled = elim (Option-cases i.last_sync_time) [
      | inl n ↦ inl n
      | inr (last, e) ↦ inr (last, e, ground arith)
    ];
  },
  λ m. elim m.cooled [ inl n ↦ ground arith | inr (last, e, passed) ↦ ground arith ],
)

-- A Job is only ever deleted where it is there and the addon controls it.
pub delete-owned :
    (i : SyncInput)
    → (decide_addon_sync i).delete_job ≡ true
    → (i.job.exists ≡ true) × (i.job.controlled_by_addon ≡ true)
unfolding decide_addon_sync
delete-owned i h = (ground arith, ground arith)

-- An addon that is Synced is never shown as Syncing: it keeps its phase, or stays Synced, or Fails.
pub synced-keeps :
    (i : SyncInput)
    → i.phase ≡ phase_synced
    → ((decide_addon_sync i).phase ≡ "")
      ⊎ (((decide_addon_sync i).phase ≡ phase_synced)
          ⊎ ((decide_addon_sync i).phase ≡ phase_failed))
unfolding decide_addon_sync
synced-keeps i h = elim (Option-cases i.last_sync_time) [
  | inl n ↦ ground (arith, eq_iff i.phase phase_synced)
  | inr (last, e) ↦ ground (arith, eq_iff i.phase phase_synced)
]

-- Every decision asks to be looked at again, after a time that is not zero.
pub requeue-positive : (i : SyncInput) → 0 < (decide_addon_sync i).requeue
unfolding decide_addon_sync
requeue-positive i = ground arith

-- What a decision rests on, given the facts `i` that it was made from.
pub record Justified (i : SyncInput) (d : SyncDecision) : Type 0 where
  pub deletes : d.delete_job ≡ true → (i.job.exists ≡ true) × (i.job.controlled_by_addon ≡ true)
  pub stale : d.action ≡ delete_stale_job → d.delete_job ≡ true
  pub recorded : d.action ≡ record_failure → d.delete_job ≡ true
  pub success : d.action ≡ record_success → IsJudged i × (i.job.succeeded ≡ true)
  pub create : d.action ≡ create_job → i.job.exists ≡ false
  pub waits :
      (d.action ≡ await_job)
        ⊎ ((d.action ≡ cooldown) ⊎ ((d.action ≡ skip_resync) ⊎ (d.action ≡ create_job)))
      → (d.phase ≡ "") ⊎ ((d.phase ≡ phase_syncing) × (i.phase ≢ phase_synced))

waits-phase :
    (i : SyncInput)
    → ((decide_addon_sync i).action ≡ await_job)
      ⊎ (((decide_addon_sync i).action ≡ cooldown)
          ⊎ (((decide_addon_sync i).action ≡ skip_resync)
              ⊎ ((decide_addon_sync i).action ≡ create_job)))
    → ((decide_addon_sync i).phase ≡ "")
      ⊎ (((decide_addon_sync i).phase ≡ phase_syncing) × (i.phase ≢ phase_synced))
unfolding decide_addon_sync
waits-phase i w = elim (Option-cases i.last_sync_time) [
  | inl n ↦ ground (arith, eq_iff i.phase phase_synced)
  | inr (t, n) ↦ ground (arith, eq_iff i.phase phase_synced)
]

pub decide-Justified : (i : SyncInput) → Justified i (decide_addon_sync i)
unfolding decide_addon_sync
decide-Justified i = record {
  deletes = delete-owned i;
  stale = λ e. elim (Option-cases i.last_sync_time) [
    | inl n ↦ ground arith
    | inr (t, n) ↦ ground arith
  ];
  recorded = λ e. elim (Option-cases i.last_sync_time) [
    | inl n ↦ ground arith
    | inr (t, n) ↦ ground arith
  ];
  success = (success_iff i).0;
  create = λ e. ((create_iff i).0 e).no_job;
  waits = waits-phase i;
}
