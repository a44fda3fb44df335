-- ===== src/Addon/Deletion/Ends.antt =====
-- How a pass over an OdooAddon that is being deleted ends: handleFinalizer of
-- internal/controller/odooaddon_controller.go.
use odoo_k8_operator.Base.{
  ℕ, ◌-◌, String, Bool, true, false, ◌&&◌, ◌||◌, not, ltb, leb, List, [], ◌∷◌, ◌++◌, Option, none,
  some, inl, inr, ◌≡◌, refl, arith, Bool-cases,
}
use odoo_k8_operator.Kube.{ApiError, Reply, got, refused}
use odoo_k8_operator.Kube.Batch.{Job}
use odoo_k8_operator.Errors.{Error}
use odoo_k8_operator.Api.{OdooAddon}
use odoo_k8_operator.Api.Instance.{OdooInstance}
use odoo_k8_operator.JobStatus.{odoo_pod_node}
use odoo_k8_operator.Addon.State.{observe_sync_job, addon_stale_job_requeue}
use odoo_k8_operator.Addon.Pass.{delete_error}
use odoo_k8_operator.Addon.Job.{SyncJobOptions, job_options}
use odoo_k8_operator.Addon.Deletion.{
  DeletionReads, DeletionPass, AddonVolume, no_volume, unknown_volume, volume_of, wait_seconds,
  fail_deletion, release, delete_next, finish_cleanup, finish_deletion, with_event, create_cleanup,
  judge_cleanup, clean_up, with_volume, owned_job, sync_read, addon_volume, handle_finalizer,
  cleanup_timeout,
}

-- How a pass may end: with an error, which is tried again; where the finalizer may be removed, with
-- that done; and otherwise with a time for the next pass.
ends_by : Bool → Bool → ℕ → Option Error → Bool
ends_by allowed released requeue (some e) = not released && leb requeue 0
ends_by allowed true requeue none = allowed && leb requeue 0
ends_by allowed false requeue none = not allowed && ltb 0 requeue

module _ (controlled : Job → OdooAddon → Bool) (r : DeletionReads) (addon : OdooAddon) where
  -- The addon controls each of the Jobs.
  own_all : List Job → Bool
  own_all [] = true
  own_all (job ∷ rest) = controlled job addon && own_all rest

  -- Only Jobs of the addon were deleted, and the pass ends in one of the three ways.
  unfoldable pub ends : Bool → DeletionPass → Bool
  unfolding ends_by own_all
  ends allowed p = own_all p.deleted && ends_by allowed p.released p.requeue p.error

  own_all-append :
      (jobs : List Job) (job : Job)
      → own_all jobs ≡ true
      → controlled job addon ≡ true
      → own_all (jobs ++ (job ∷ [])) ≡ true
  unfolding own_all
  own_all-append [] job h c = ground arith
  own_all-append (first ∷ rest) job h c =
      let tail : own_all rest ≡ true = ground arith in
      let e = own_all-append rest job tail c in ground arith

  -- The cleanup Job is not the addon's, or is over, or has had its time.
  cleanup_over : Reply (Option Job) → Bool
  unfolding observe_sync_job
  cleanup_over (refused e) = false
  cleanup_over (got none) = false
  cleanup_over (got (some job)) =
      let observed = observe_sync_job controlled (some job) addon in
      not (controlled job addon)
      || observed.succeeded
      || observed.failed
      || ltb cleanup_timeout (r.now - job.meta.created)

  nothing_left : Option Job → AddonVolume → Bool
  unfolding cleanup_over
  nothing_left owned no_volume = true
  nothing_left owned (unknown_volume e) = false
  nothing_left (some job) (volume_of inst pvc_name) = false
  nothing_left none (volume_of inst pvc_name) = cleanup_over r.cleanup_job

  may_release_after : Reply (Option Job) → Bool
  unfolding nothing_left
  may_release_after (refused e) = false
  may_release_after (got job) =
      nothing_left (owned_job controlled r addon job) (addon_volume r addon)

  -- The volume of the addon is gone, or no sync Job of the addon is left and its cleanup is over.
  unfoldable pub may_release : Bool
  unfolding may_release_after
  may_release = may_release_after r.sync_job

  release-ends :
      (jobs : List Job) (answer : Option ApiError)
      → own_all jobs ≡ true
      → ends true (release controlled r addon jobs answer) ≡ true
  unfolding ends release wait_seconds fail_deletion
  release-ends jobs none h = ground arith
  release-ends jobs (some e) h = ground arith

  delete_next-ends :
      (allowed : Bool) (jobs : List Job) (job : Job) (e : Option Error)
      (next : List Job → DeletionPass)
      → own_all jobs ≡ true
      → controlled job addon ≡ true
      → ((js : List Job) → own_all js ≡ true → ends allowed (next js) ≡ true)
      → ends allowed (delete_next controlled r addon jobs job e next) ≡ true
  unfolding ends delete_next wait_seconds fail_deletion
  delete_next-ends allowed jobs job (some e) next h c k = ground arith
  delete_next-ends allowed jobs job none next h c k =
      k (jobs ++ (job ∷ [])) (own_all-append jobs job h c)

  -- A Job that is given is the addon's.
  IsOwn : Option Job → Type 0
  IsOwn job = (j : Job) → job ≡ some j → controlled j addon ≡ true

  finish_cleanup-ends :
      (jobs : List Job) (cleanup : Option Job)
      → own_all jobs ≡ true
      → IsOwn cleanup
      → ends true (finish_cleanup controlled r addon jobs cleanup) ≡ true
  unfolding finish_cleanup IsOwn
  finish_cleanup-ends jobs none h own = release-ends jobs r.update h
  finish_cleanup-ends jobs (some job) h own =
      delete_next-ends true jobs job (delete_error r.delete_cleanup)
        (λ js. release controlled r addon js r.update) h (own job refl)
        (λ js. release-ends js r.update)

  finish_deletion-ends :
      (owned cleanup : Option Job)
      → IsOwn owned
      → IsOwn cleanup
      → ends true (finish_deletion controlled r addon owned cleanup) ≡ true
  unfolding finish_deletion IsOwn own_all
  finish_deletion-ends none cleanup own_sync own = finish_cleanup-ends [] cleanup refl own
  finish_deletion-ends (some job) cleanup own_sync own =
      delete_next-ends true [] job (delete_error r.delete_sync)
        (λ js. finish_cleanup controlled r addon js cleanup) refl (own_sync job refl)
        (λ js h. finish_cleanup-ends js cleanup h own)

  no_job-IsOwn : IsOwn none
  unfolding IsOwn
  no_job-IsOwn j e = absurd cc

  job-IsOwn : (job : Job) → controlled job addon ≡ true → IsOwn (some job)
  unfolding IsOwn
  job-IsOwn job c j e = cc

  create_cleanup-ends :
      (o : SyncJobOptions) (e : Option Error) (answer : Option ApiError)
      → ends false (create_cleanup controlled r addon o e answer) ≡ true
  unfolding ends own_all create_cleanup wait_seconds fail_deletion
  create_cleanup-ends o (some e) answer = refl
  create_cleanup-ends o none none = refl
  create_cleanup-ends o none (some e) = ground arith

  judge_cleanup-ends :
      (job : Job)
      → controlled job addon ≡ true
      → ends (cleanup_over (got (some job))) (judge_cleanup controlled r addon job) ≡ true
  unfolding ends own_all cleanup_over judge_cleanup with_event wait_seconds observe_sync_job
  judge_cleanup-ends job c =
      let job_left = finish_deletion-ends none (some job) no_job-IsOwn (job-IsOwn job c) in
      ground arith

  clean_up-ends :
      (inst : OdooInstance) (pvc_name : String) (reply : Reply (Option Job))
      → ends (cleanup_over reply) (clean_up controlled r addon inst pvc_name reply) ≡ true
  unfolding ends own_all clean_up cleanup_over fail_deletion wait_seconds
  clean_up-ends inst pvc_name (refused e) = refl
  clean_up-ends inst pvc_name (got none) =
      create_cleanup-ends (job_options r.image inst pvc_name (odoo_pod_node r.pods)) r.set_owner
        r.create
  clean_up-ends inst pvc_name (got (some job)) = elim (Bool-cases (controlled job addon)) [
    | inl c ↦ let judged = judge_cleanup-ends job c in ground arith
    | inr c ↦ let left = finish_deletion-ends none none no_job-IsOwn no_job-IsOwn in ground arith
  ]

  owned_job-IsOwn : (job : Option Job) → IsOwn (owned_job controlled r addon job)
  unfolding owned_job IsOwn
  owned_job-IsOwn none j e = absurd cc
  owned_job-IsOwn (some job) j e = elim (Bool-cases (controlled job addon)) [
    | inl c ↦ let same : some job ≡ some j = ground arith in job-IsOwn job c j same
    | inr c ↦ absurd (ground arith)
  ]

  with_volume-ends :
      (owned : Option Job) (volume : AddonVolume)
      → IsOwn owned
      → ends (nothing_left owned volume) (with_volume controlled r addon owned volume) ≡ true
  unfolding with_volume nothing_left ends own_all IsOwn wait_seconds fail_deletion
  with_volume-ends owned no_volume own = finish_deletion-ends owned none own no_job-IsOwn
  with_volume-ends owned (unknown_volume e) own = refl
  with_volume-ends none (volume_of inst pvc_name) own = clean_up-ends inst pvc_name r.cleanup_job
  with_volume-ends (some job) (volume_of inst pvc_name) own =
      delete_next-ends false [] job (delete_error r.delete_sync)
        (λ js. record (wait_seconds addon_stale_job_requeue) { deleted = js }) refl (own job refl)
        (λ js h. ground arith)

  sync_read-ends :
      (reply : Reply (Option Job))
      → ends (may_release_after reply) (sync_read controlled r addon reply) ≡ true
  unfolding sync_read may_release_after ends own_all fail_deletion wait_seconds
  sync_read-ends (refused e) = refl
  sync_read-ends (got job) =
      with_volume-ends (owned_job controlled r addon job) (addon_volume r addon)
        (owned_job-IsOwn job)

  -- Every pass over an addon that holds the finalizer ends, whatever answers it gets, in exactly one of
  -- three ways: with an error and the finalizer kept; with the finalizer removed and no further pass,
  -- where the addon's instance or claim is not there (or its reference is to no instance of its
  -- namespace), or where no sync Job of the addon is left and the cleanup Job is another's, succeeded,
  -- failed or is older than 180 seconds; or, where none of that is the case, with the finalizer kept and
  -- a positive time for the next pass. The Jobs that it deletes are the addon's.
  pub handle_finalizer-ends :
      r.has_finalizer ≡ true → ends may_release (handle_finalizer controlled r addon) ≡ true
  unfolding handle_finalizer ends may_release
  handle_finalizer-ends h = let e = sync_read-ends r.sync_job in ground arith
