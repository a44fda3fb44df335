-- ===== src/Backup/Logs.antt =====
-- What is read off the logs of a backup pod: backupParseResult (internal/controller/
-- odoobackup_job.go), backupTail and backupLogTail (odoobackup_controller.go). A log that cannot be
-- read is "". A slice holds the whole characters among its bytes, which is what ToValidUTF8 leaves.
pub mod Result
use Prim.Native.Char.{code}
use odoo_k8_operator.Base.{
  ℕ, ◌-◌, String, ◌⧺◌, ◌==◌, leb, ◌=ℕ◌, if◌then◌else◌, List, [], ◌∷◌, Option, none, some, len,
  slice, lines,
}
use odoo_k8_operator.JobStatus.{trim_space}
use odoo_k8_operator.Backup.Script.{backup_result_prefix}

-- strings.CutPrefix
unfoldable pub cut_prefix : String → String → Option String
cut_prefix String.[] s = some s
cut_prefix (String.◌∷◌ c p) String.[] = none
cut_prefix (String.◌∷◌ c p) (String.◌∷◌ d s) =
    let rest = cut_prefix p s in if code c =ℕ code d then rest else none

found_or : String → Option String → String
unfolding trim_space
found_or result (some rest) = trim_space rest
found_or result none = result

-- The file list of a line that has one, or that of the lines before.
line_result : String → String → String
unfolding found_or cut_prefix trim_space
line_result result line = found_or result (cut_prefix backup_result_prefix (trim_space line))

parse_lines : String → List String → String
unfolding line_result
parse_lines result [] = result
parse_lines result (l ∷ ls) = parse_lines (line_result result l) ls

-- backupParseResult
unfoldable pub backup_parse_result : String → String
unfolding parse_lines lines
backup_parse_result logs = parse_lines "" (lines logs)

-- What follows the first line break, if anything does.
after_break : String → Option String
after_break String.[] = none
after_break (String.◌∷◌ c s) =
    let below = after_break s in if code c =ℕ 10 then (if s == "" then none else some s) else below

-- backupTail
unfoldable pub backup_tail : String → ℕ → String
unfolding after_break trim_space
backup_tail s n =
    if leb (len s) n
    then trim_space s
    else (let cut = slice s (len s - n) (len s) in
        elim (after_break cut) [ some rest ↦ trim_space rest | none ↦ trim_space cut ])

-- backupLogTail, of the logs of the main and of the init container
unfoldable pub backup_log_tail : String → String → String
unfolding trim_space backup_tail
backup_log_tail main init =
    let logs = if trim_space main == "" then init else main in
    if trim_space logs == "" then "" else backup_tail logs 2000
