-- ===== src/Names.antt =====
-- Names derived from an object's name: upgradeBoundedName (internal/controller/odooupgrade_job.go)
-- and backupBoundedName (odoobackup_job.go), which are one function with two fallback words, the
-- names built with them, gateUpgradeName (odooinstance_gate.go) and the plain suffixed names.
pub mod Bounds
use odoo_k8_operator.Base.{
  ℕ, ◌-◌, ◌+◌, String, Bool, ◌||◌, ◌⧺◌, ◌==◌, ◌=ℕ◌, leb, if◌then◌else◌, len, slice, trim,
  trim_right, fnv32a, hex8, min,
}

-- The characters that strings.Trim takes off: '-' and '.'.
abbrev pub dash_or_dot : ℕ → Bool
dash_or_dot c = c =ℕ b'-' || c =ℕ b'.'

abbrev pub dash : ℕ → Bool
dash c = c =ℕ b'-'

-- The truncated form: base[:keep] trimmed, or the fallback word, then the hash.
unfoldable pub hashed_name : String → String → String → ℕ → String
unfolding trim fnv32a hex8
hashed_name fallback base suffix max_len =
    let hash = hex8 (fnv32a base) in
    let keep = max_len - len suffix - 1 - len hash in
    let prefix = trim dash_or_dot (slice base 0 keep) in
    (if prefix == "" then fallback else prefix) ⧺ "-" ⧺ hash ⧺ suffix

unfoldable pub bounded_name : String → String → String → ℕ → String
unfolding hashed_name
bounded_name fallback base suffix max_len =
    let full = base ⧺ suffix in
    if leb (len full) max_len then full else hashed_name fallback base suffix max_len

unfoldable pub upgrade_bounded_name : String → String → ℕ → String
unfolding bounded_name
upgrade_bounded_name = bounded_name "upgrade"

unfoldable pub backup_bounded_name : String → String → ℕ → String
unfolding bounded_name
backup_bounded_name = bounded_name "backup"

unfoldable pub upgrade_job_name : String → String
unfolding upgrade_bounded_name
upgrade_job_name name = upgrade_bounded_name name "-run" 63

unfoldable pub upgrade_label_value : String → String
unfolding upgrade_bounded_name
upgrade_label_value name = upgrade_bounded_name name "" 63

unfoldable pub backup_job_name : String → String
unfolding backup_bounded_name
backup_job_name name = backup_bounded_name name "-run" 63

unfoldable pub backup_cron_job_name : String → String
unfolding backup_bounded_name
backup_cron_job_name name = backup_bounded_name name "-sched" 52

unfoldable pub backup_label_value : String → String
unfolding backup_bounded_name
backup_label_value name = backup_bounded_name name "" 63

abbrev pub gate_upgrade_infix : String
gate_upgrade_infix = "-upg-"

abbrev pub gate_hash_prefix_len : ℕ
gate_hash_prefix_len = 8

abbrev pub gate_max_name_len : ℕ
gate_max_name_len = 63

-- gateUpgradeName; a hash is 64 hexadecimal digits, so its first eight are there.
unfoldable pub gate_upgrade_name : String → String → String
unfolding trim_right
gate_upgrade_name instance_name hash =
    let max_prefix = gate_max_name_len - len gate_upgrade_infix - gate_hash_prefix_len in
    let prefix = slice instance_name 0 (min (len instance_name) max_prefix) in
    trim_right dash prefix ⧺ gate_upgrade_infix ⧺ slice hash 0 gate_hash_prefix_len

-- initUpgradeName
unfoldable pub init_upgrade_name : String → String
init_upgrade_name instance_name = instance_name ⧺ "-init"

unfoldable pub addons_pvc_name : String → String
addons_pvc_name instance_name = instance_name ⧺ "-addons"

unfoldable pub data_pvc_name : String → String
data_pvc_name instance_name = instance_name ⧺ "-data"

unfoldable pub config_map_name : String → String
config_map_name instance_name = instance_name ⧺ "-config"

unfoldable pub cron_deployment_name : String → String
cron_deployment_name instance_name = instance_name ⧺ "-cron"
