-- ===== src/Addon/Output/Valid.antt =====
-- The module list of a sync Job's log: parseModulesLine of internal/controller/odooaddon_sync.go.
use odoo_k8_operator.Base.{
  String, Bool, true, false, List, [], ◌∷◌, Option, none, some, ◌≡◌, refl, arith, any, sort,
  any-sort, any-compact, ◌∙◌, lines,
}
use odoo_k8_operator.Addon.Spec.{validate_module_name}
use odoo_k8_operator.Addon.Output.{
  valid_modules, modules_of, modules_after, comma_parts, modules_line_prefix, parse_modules_line,
  report_of, filled_lines, parse_sync_output,
}
use odoo_k8_operator.Backup.Logs.{cut_prefix}

unfoldable pub is_invalid : String → Bool
is_invalid name = elim (validate_module_name name) [ none ↦ false | some e ↦ true ]

has_invalid : Option (List String) → Bool
has_invalid none = false
has_invalid (some names) = any is_invalid names

modules_of-has_invalid :
    (names : Option (List String)) → any is_invalid (modules_of names) ≡ has_invalid names
unfolding modules_of has_invalid
modules_of-has_invalid none = refl
modules_of-has_invalid (some names) =
    any-compact is_invalid (sort names) ∙ any-sort is_invalid names

valid_modules-valid : (parts : List String) → has_invalid (valid_modules parts) ≡ false
unfolding valid_modules is_invalid has_invalid
valid_modules-valid [] = refl
valid_modules-valid (part ∷ rest) = ground (arith, valid_modules-valid rest)

after-valid : (rest : Option String) → any is_invalid (modules_after rest) ≡ false
unfolding modules_after
after-valid none = refl
after-valid (some rest) =
    modules_of-has_invalid (valid_modules (comma_parts rest))
    ∙ valid_modules-valid (comma_parts rest)

pub parse_modules_line-valid : (line : String) → any is_invalid (parse_modules_line line) ≡ false
unfolding parse_modules_line
parse_modules_line-valid line = after-valid (cut_prefix modules_line_prefix line)

report_of-valid :
    (before : Option String) (ls : List String)
    → any is_invalid (report_of before ls).modules ≡ false
unfolding report_of
report_of-valid before [] = refl
report_of-valid none (last ∷ []) = refl
report_of-valid (some line) (last ∷ []) = parse_modules_line-valid line
report_of-valid before (line ∷ next ∷ rest) = report_of-valid (some line) (next ∷ rest)

pub parse_sync_output-valid :
    (logs : String) → any is_invalid (parse_sync_output logs).modules ≡ false
unfolding parse_sync_output
parse_sync_output-valid logs = report_of-valid none (filled_lines (lines logs))
