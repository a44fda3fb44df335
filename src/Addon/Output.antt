-- ===== src/Addon/Output.antt =====
-- What is read off the log of a sync Job: parseSyncOutput and parseModulesLine of internal/controller/
-- odooaddon_sync.go, and readSyncOutput of odooaddon_controller.go. A list that is nil is empty.
pub mod Valid
pub mod Names
pub mod Reported
pub mod Blank
use Prim.Native.Char.{Char, code}
use odoo_k8_operator.Base.{
  ℕ, String, Bool, ◌⧺◌, ◌==◌, ◌=ℕ◌, if◌then◌else◌, List, [], ◌∷◌, Option, none, some, lines, sort,
  compact,
}
use odoo_k8_operator.Kube.{ApiError}
use odoo_k8_operator.Kube.Batch.{Job}
use odoo_k8_operator.PodLogs.{LogReads}
use odoo_k8_operator.Errors.{Error, text, Result, ok, err}
use odoo_k8_operator.JobStatus.{trim_space}
use odoo_k8_operator.Backup.Logs.{cut_prefix}
use odoo_k8_operator.Addon.Spec.{validate_module_name}

-- What readSyncOutput returns: the commit and the modules, or an error.
pub data SyncOutput : Type 0 where
  no_output : Error → SyncOutput
  output : String → List String → SyncOutput

abbrev pub modules_line_prefix : String
modules_line_prefix = "modules: "

-- A character before the first of some parts.
unfoldable pub onto_first : Char → List String → List String
onto_first c [] = String.◌∷◌ c "" ∷ []
onto_first c (part ∷ rest) = String.◌∷◌ c part ∷ rest

-- strings.Split at a comma
unfoldable pub comma_parts : String → List String
unfolding onto_first
comma_parts String.[] = "" ∷ []
comma_parts (String.◌∷◌ c s) =
    let rest = comma_parts s in if code c =ℕ b',' then "" ∷ rest else onto_first c rest

-- The parts, if all of them are names of modules.
unfoldable pub valid_modules : List String → Option (List String)
unfolding validate_module_name
valid_modules [] = some []
valid_modules (part ∷ rest) =
    let others = valid_modules rest in
    elim (validate_module_name part) [
      | some e ↦ none
      | none ↦ elim others [ none ↦ none | some names ↦ some (part ∷ names) ]
    ]

unfoldable pub modules_of : Option (List String) → List String
unfolding sort compact
modules_of none = []
modules_of (some names) = compact (sort names)

unfoldable pub modules_after : Option String → List String
unfolding modules_of valid_modules comma_parts
modules_after none = []
modules_after (some rest) = modules_of (valid_modules (comma_parts rest))

-- parseModulesLine
unfoldable pub parse_modules_line : String → List String
unfolding modules_after cut_prefix
parse_modules_line line = modules_after (cut_prefix modules_line_prefix line)

-- The lines with more than white space, trimmed.
unfoldable pub filled_lines : List String → List String
unfolding trim_space
filled_lines [] = []
filled_lines (line ∷ rest) =
    let others = filled_lines rest in
    let t = trim_space line in if t == "" then others else t ∷ others

-- What a log reports.
pub record SyncReport : Type 0 where
  pub commit : String
  pub modules : List String

-- The last line, and the one before it, if there is one.
unfoldable pub report_of : Option String → List String → SyncReport
unfolding parse_modules_line
report_of before [] = record { commit = ""; modules = [] }
report_of none (last ∷ []) = record { commit = last; modules = [] }
report_of (some before) (last ∷ []) = record { commit = last; modules = parse_modules_line before }
report_of before (line ∷ next ∷ rest) = report_of (some line) (next ∷ rest)

-- parseSyncOutput
unfoldable pub parse_sync_output : String → SyncReport
unfolding report_of filled_lines lines
parse_sync_output logs = report_of none (filled_lines (lines logs))

-- readSyncOutput, of what readJobLogs returns
unfoldable pub read_sync_output : Job → Result String → SyncOutput
unfolding parse_sync_output
read_sync_output job (err e) = no_output e
read_sync_output job (ok logs) =
    let report = parse_sync_output logs in
    if report.commit == ""
    then no_output (text ("sync job " ⧺ job.meta.name ⧺ " produced no commit hash output"))
    else output report.commit report.modules
