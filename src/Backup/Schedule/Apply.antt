-- ===== src/Backup/Schedule/Apply.antt =====
-- What backupApplyCronJob comes to: the CronJob that it returns, against what the server holds.
use odoo_k8_operator.Base.{true, false, Option, none, some, ◌≡◌, inl, inr, refl, Bool-cases}
use odoo_k8_operator.Kube.{ApiError, Reply, got, refused}
use odoo_k8_operator.Kube.Batch.{Labels, NewCronJob}
use odoo_k8_operator.Kube.Retry.{is_not_found, is_already_exists}
use odoo_k8_operator.Machinery.{Machinery}
use odoo_k8_operator.Backup.Settings.{BackupTools}
use odoo_k8_operator.Backup.Pass.{CronJob, BackupReads}
use odoo_k8_operator.Backup.Schedule.Match.{
  Matches, up_to_date-Matches, outdated-not-Matches, fresh-Matches, replaced-Matches,
}
use odoo_k8_operator.Backup.Schedule.{
  Applied, applied, apply_error, fresh, replaced, create_cron, update_cron, is_up_to_date,
  backup_apply_cron_job,
}

fresh-spec : (wanted : NewCronJob) → (fresh wanted).spec ≡ wanted.spec
unfolding fresh
fresh-spec wanted = refl

replaced-spec : (cur : CronJob) (wanted : NewCronJob) → (replaced cur wanted).spec ≡ wanted.spec
unfolding replaced
replaced-spec cur wanted = refl

module _ (k : Machinery) (t : BackupTools) (r : BackupReads) where
  -- What the call promises for the CronJob `wanted`, by what it returned.
  pub data Ensures (wanted : NewCronJob) (reply : Reply CronJob) : Applied → Type 0 where
    -- Nothing written: the server held one with the wanted hash and labels, which stays as it is, its
    -- schedule and its suspension too.
    up_to_date :
        (cur : CronJob)
        → reply ≡ got cur
        → Matches t cur wanted
        → Ensures wanted reply (applied cur none)
    -- Created, or put in the place of an outdated one.
    created :
        (e : ApiError)
        → reply ≡ refused e
        → is_not_found e ≡ true
        → r.create_cron ≡ none
        → Matches t (fresh wanted) wanted
        → (fresh wanted).spec ≡ wanted.spec
        → Ensures wanted reply (applied (fresh wanted) (some wanted))
    updated :
        (cur : CronJob)
        → reply ≡ got cur
        → ¬ (Matches t cur wanted)
        → r.update_cron ≡ none
        → Matches t (replaced cur wanted) wanted
        → (replaced cur wanted).spec ≡ wanted.spec
        → Ensures wanted reply (applied (replaced cur wanted) (some wanted))
    -- Another client created one meanwhile: what that is, is not read.
    raced :
        (e e' : ApiError)
        → reply ≡ refused e
        → is_not_found e ≡ true
        → r.create_cron ≡ some e'
        → is_already_exists e' ≡ true
        → Ensures wanted reply (applied (fresh wanted) none)
    -- An error of the one call that failed.
    read_failed :
        (e : ApiError)
        → reply ≡ refused e
        → is_not_found e ≡ false
        → Ensures wanted reply (apply_error e)
    create_failed :
        (e' : ApiError)
        → r.create_cron ≡ some e'
        → is_already_exists e' ≡ false
        → Ensures wanted reply (apply_error e')
    update_failed :
        (cur : CronJob) (e : ApiError)
        → reply ≡ got cur
        → ¬ (Matches t cur wanted)
        → r.update_cron ≡ some e
        → Ensures wanted reply (apply_error e)

  module _ (same : (l : Labels) → t.labels_equal l l ≡ true) (wanted : NewCronJob) where
    create-Ensures :
        (e : ApiError) (answer : Option ApiError)
        → is_not_found e ≡ true
        → r.create_cron ≡ answer
        → Ensures wanted (refused e) (create_cron wanted answer)
    unfolding create_cron
    create-Ensures e none h c = created e refl h c (fresh-Matches t wanted same) (fresh-spec wanted)
    create-Ensures e (some e') h c = elim (Bool-cases (is_already_exists e')) [
      | inl x ↦ rw x (raced e e' refl h c x)
      | inr x ↦ rw x (create_failed e' c x)
    ]

    update-Ensures :
        (cur : CronJob) (answer : Option ApiError)
        → is_up_to_date t cur wanted ≡ false
        → r.update_cron ≡ answer
        → Ensures wanted (got cur) (update_cron cur wanted answer)
    unfolding update_cron
    update-Ensures cur none h u =
        updated cur refl (outdated-not-Matches t wanted cur h) u
          (replaced-Matches t wanted same cur) (replaced-spec cur wanted)
    update-Ensures cur (some e) h u =
        update_failed cur e refl (outdated-not-Matches t wanted cur h) u

    -- Where DeepEqual holds of equal labels: the CronJob that the call returns has the wanted hash
    -- annotation and labels, and it is one that the server held with them, whose spec is neither looked
    -- at nor changed, so that its schedule or suspension may be another; or one that was just created,
    -- or put in the place of one without them, and has the wanted spec; or, where another client created
    -- one between the read and the creation, the wanted one, which was not written. An error is that of
    -- the call that failed, and then nothing was written.
    pub backup_apply_cron_job-Ensures :
        (reply : Reply CronJob) → Ensures wanted reply (backup_apply_cron_job k t r wanted reply)
    unfolding backup_apply_cron_job
    backup_apply_cron_job-Ensures (refused e) = elim (Bool-cases (is_not_found e)) [
      | inl h ↦ rw h (create-Ensures e r.create_cron h refl)
      | inr h ↦ rw h (read_failed e refl h)
    ]
    backup_apply_cron_job-Ensures (got cur) = elim (Bool-cases (is_up_to_date t cur wanted)) [
      | inl h ↦ rw h (up_to_date cur refl (up_to_date-Matches t wanted cur h))
      | inr h ↦ rw h (update-Ensures cur r.update_cron h refl)
    ]
