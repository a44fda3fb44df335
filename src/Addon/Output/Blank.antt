-- ===== src/Addon/Output/Blank.antt =====
-- When a sync Job's log has no commit: readSyncOutput of internal/controller/odooaddon_controller.go.
use odoo_k8_operator.Base.{
  String, Bool, true, false, not, ◌⧺◌, ◌==◌, List, [], ◌∷◌, Option, none, some, ◌≡◌, ◌≢◌, refl, sym,
  ap, ◌∙◌, lines, all-lines, trim-blank, all, any, arith, Bool-cases, inl, inr,
}
use odoo_k8_operator.Shell.{all_chars}
use odoo_k8_operator.JobStatus.{is_space, trim_space}
use odoo_k8_operator.Kube.Batch.{Job}
use odoo_k8_operator.Errors.{Error, text, Result, ok, err}
use odoo_k8_operator.PodLogs.{LogReads, read_job_logs}
use odoo_k8_operator.PodLogs.Newest.{Read, read_job_logs-Read}
use odoo_k8_operator.Addon.Output.Valid.{is_invalid, parse_sync_output-valid}
use odoo_k8_operator.Addon.Output.{
  SyncOutput, no_output, output, filled_lines, report_of, parse_sync_output, read_sync_output,
}

abbrev is_blank : String → Bool
is_blank = all_chars is_space

trim_space-blank : (s : String) → (trim_space s == "") ≡ is_blank s
unfolding trim_space
trim_space-blank s = trim-blank is_space s

-- The commit of a report, which is empty exactly where there are no lines.
filled_lines-none : (ls : List String) → all is_blank ls ≡ true → filled_lines ls ≡ []
unfolding filled_lines
filled_lines-none [] h = refl
filled_lines-none (l ∷ ls) h = ground (arith, trim_space-blank l, filled_lines-none ls)

filled_lines-filled : (ls : List String) → all (λ l. not (l == "")) (filled_lines ls) ≡ true
unfolding filled_lines
filled_lines-filled [] = refl
filled_lines-filled (l ∷ ls) = ground (arith, filled_lines-filled ls)

filled_lines-some : (ls : List String) → all is_blank ls ≡ false → filled_lines ls ≢ []
unfolding filled_lines
filled_lines-some [] h e = absurd (ground arith)
filled_lines-some (l ∷ ls) h e = ground (arith, trim_space-blank l, filled_lines-some ls)

report_of-commit :
    (before : Option String) (ls : List String)
    → ls ≢ []
    → all (λ l. not (l == "")) ls ≡ true
    → ((report_of before ls).commit == "") ≡ false
unfolding report_of
report_of-commit before [] ne h = absurd (ne refl)
report_of-commit none (l ∷ []) ne h = ground arith
report_of-commit (some b) (l ∷ []) ne h = ground arith
report_of-commit before (l ∷ k ∷ ls) ne h =
    report_of-commit (some l) (k ∷ ls) (λ e. cc) (ground arith)

commit-blank : (logs : String) → ((parse_sync_output logs).commit == "") ≡ is_blank logs
unfolding parse_sync_output
commit-blank logs = elim (Bool-cases (is_blank logs)) [
  | inl h ↦
      ap (λ ls. (report_of none ls).commit == "")
        (filled_lines-none (lines logs) (all-lines is_space logs refl ∙ h))
      ∙ sym h
  | inr h ↦
      report_of-commit none (filled_lines (lines logs))
        (filled_lines-some (lines logs) (all-lines is_space logs refl ∙ h))
        (filled_lines-filled (lines logs))
      ∙ sym h
]

-- What a succeeded Job is read to.
pub data ReadOutcome (r : LogReads) (job : Job) : SyncOutput → Type 0 where
  unread : (e : Error) → Read r job (err e) → ReadOutcome r job (no_output e)
  nothing :
      (logs : String)
      → Read r job (ok logs)
      → is_blank logs ≡ true
      → ReadOutcome r job
          (no_output (text ("sync job " ⧺ job.meta.name ⧺ " produced no commit hash output")))
  something :
      (logs commit : String) (modules : List String)
      → Read r job (ok logs)
      → is_blank logs ≡ false
      → (commit == "") ≡ false
      → any is_invalid modules ≡ false
      → ReadOutcome r job (output commit modules)

log-ReadOutcome :
    (r : LogReads) (job : Job) (result : Result String)
    → Read r job result
    → ReadOutcome r job (read_sync_output job result)
unfolding read_sync_output
log-ReadOutcome r job (err e) log = unread e log
log-ReadOutcome r job (ok logs) log = elim (Bool-cases (is_blank logs)) [
  | inl h ↦ rw (commit-blank logs) (rw h (nothing logs log h))
  | inr h ↦
      rw (commit-blank logs)
        (rw h (something logs _ _ log h (commit-blank logs ∙ h) (parse_sync_output-valid logs)))
]

-- The output of a succeeded sync Job is an error exactly where there is no clientset, the pods cannot
-- be listed, there is none, the log of the first of the newest pods cannot be read, or that log holds
-- nothing but white space, in which case the error names the Job; any other log of that pod is read to
-- a commit that is not empty and to names of module folders, possibly none.
pub read_sync_output-ReadOutcome :
    (r : LogReads) (job : Job) → ReadOutcome r job (read_sync_output job (read_job_logs r job))
read_sync_output-ReadOutcome r job = log-ReadOutcome r job _ (read_job_logs-Read r job)
