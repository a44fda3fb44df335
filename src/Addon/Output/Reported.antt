-- ===== src/Addon/Output/Reported.antt =====
-- The sync script prints its modules and its commit last (buildSyncScript of internal/controller/
-- odooaddon_sync.go), and parseSyncOutput reads them back.
use odoo_k8_operator.Base.{
  String, true, false, ◌⧺◌, ◌==◌, List, [], ◌∷◌, ◌++◌, Option, none, some, ◌≡◌, refl, ap, ◌∙◌,
  lines, one_line, lines-one_line, lines-append, trim-none, trim-label, none_of, append-filled,
  one_line-append, join, sort, compact, any, arith,
}
use odoo_k8_operator.JobStatus.{is_space, trim_space}
use odoo_k8_operator.Backup.Logs.Result.{cut_prefix-append, none_of-one_line}
use odoo_k8_operator.Addon.Output.{
  valid_modules, modules_of, modules_after, modules_line_prefix, parse_modules_line, filled_lines,
  report_of, parse_sync_output,
}
use odoo_k8_operator.Addon.Output.Names.{
  valid_modules-all, comma_parts-join, join-solid, join-filled,
}
use odoo_k8_operator.Addon.Output.Valid.{is_invalid}

filled_lines-append :
    (xs ys : List String) → filled_lines (xs ++ ys) ≡ filled_lines xs ++ filled_lines ys
unfolding filled_lines
filled_lines-append [] ys = refl
filled_lines-append (x ∷ xs) ys = ground (arith, filled_lines-append xs ys)

-- The last two lines are the report, whatever comes before.
report_of-append :
    (before : Option String) (xs : List String) (line last : String)
    → report_of before (xs ++ (line ∷ last ∷ []))
      ≡ record { commit = last; modules = parse_modules_line line }
unfolding report_of
report_of-append before [] line last = refl
report_of-append before (x ∷ []) line last = refl
report_of-append before (x ∷ y ∷ xs) line last = report_of-append (some x) (y ∷ xs) line last

module _ (n : String) (ns : List String) (valid : any is_invalid (n ∷ ns) ≡ false) (commit : String)
    (named : (commit == "") ≡ false) (solid : none_of is_space commit ≡ true) where
  -- The line of the modules, as the script prints it.
  modules_line : String
  modules_line = modules_line_prefix ⧺ join "," (n ∷ ns)

  line-trimmed : trim_space modules_line ≡ modules_line
  unfolding trim_space modules_line
  line-trimmed =
      trim-label is_space "m" "odules: " (join "," (n ∷ ns)) refl (join-solid n ns valid)
        (join-filled n ns valid)

  line-filled : (modules_line == "") ≡ false
  unfolding modules_line
  line-filled = append-filled modules_line_prefix (join "," (n ∷ ns)) refl

  commit-trimmed : trim_space commit ≡ commit
  unfolding trim_space
  commit-trimmed = trim-none is_space commit solid

  line-one_line : one_line modules_line ≡ true
  unfolding modules_line
  line-one_line =
      one_line-append modules_line_prefix (join "," (n ∷ ns)) refl
        (none_of-one_line is_space (join "," (n ∷ ns)) refl (join-solid n ns valid))

  printed-lines :
      (log : String)
      → lines (log ⧺ "\n" ⧺ modules_line ⧺ "\n" ⧺ commit ⧺ "\n" ⧺ "")
        ≡ lines log ++ (modules_line ∷ commit ∷ "" ∷ [])
  unfolding lines
  printed-lines log =
      lines-append log _
      ∙ ap (λ ls. lines log ++ ls)
          (lines-append modules_line _
            ∙ ap (λ ls. ls ++ lines (commit ⧺ "\n" ⧺ ""))
                (lines-one_line modules_line line-one_line)
            ∙ ap (λ ls. modules_line ∷ ls)
                (lines-append commit ""
                  ∙ ap (λ ls. ls ++ ("" ∷ []))
                      (lines-one_line commit (none_of-one_line is_space commit refl solid))))

  printed-filled : filled_lines (modules_line ∷ commit ∷ "" ∷ []) ≡ modules_line ∷ commit ∷ []
  unfolding filled_lines
  printed-filled = ground (arith, line-filled, line-trimmed, commit-trimmed)

  line-parsed : parse_modules_line modules_line ≡ compact (sort (n ∷ ns))
  unfolding parse_modules_line modules_line modules_after modules_of
  line-parsed =
      ap modules_after (cut_prefix-append modules_line_prefix (join "," (n ∷ ns)))
      ∙ ap (λ ps. modules_of (valid_modules ps)) (comma_parts-join n ns valid)
      ∙ ap modules_of (valid_modules-all (n ∷ ns) valid)

  -- Where a log ends in the two lines that the sync script prints last, the names of its modules, which
  -- are names of module folders, and its commit, the commit is read off it as it was, and the names
  -- sorted and without repetitions, whatever the pod printed before.
  pub parse_sync_output-printed :
      (log : String)
      → parse_sync_output
          (log ⧺ "\n" ⧺ (modules_line_prefix ⧺ join "," (n ∷ ns)) ⧺ "\n" ⧺ commit ⧺ "\n" ⧺ "")
        ≡ record { commit = commit; modules = compact (sort (n ∷ ns)) }
  unfolding parse_sync_output modules_line
  parse_sync_output-printed log =
      ap (λ ls. report_of none (filled_lines ls)) (printed-lines log)
      ∙ ap (report_of none) (filled_lines-append (lines log) (modules_line ∷ commit ∷ "" ∷ []))
      ∙ ap (λ ls. report_of none (filled_lines (lines log) ++ ls)) printed-filled
      ∙ report_of-append none (filled_lines (lines log)) modules_line commit
      ∙ ap (λ ms. record { commit = commit; modules = ms }) line-parsed
