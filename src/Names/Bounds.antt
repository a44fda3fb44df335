-- ===== src/Names/Bounds.antt =====
-- Derived names fit their limits: 63 bytes for names and labels, 52 for CronJobs.
use odoo_k8_operator.Base.{
  ℕ, ◌-◌, ◌+◌, ◌≤◌, String, ◌≡◌, ◌⧺◌, ◌==◌, if◌then◌else◌, len, slice, trim, arith, len-append,
  len-hex8, len-slice-le, len-trim-le, len-trim_right-le, fnv32a, hex8, trim_right, min,
}
use odoo_k8_operator.Names.{
  dash, dash_or_dot, hashed_name, bounded_name, upgrade_job_name, upgrade_label_value,
  backup_job_name, backup_cron_job_name, backup_label_value, gate_upgrade_name,
}

len-append₄ : (a b c d : String) → len (a ⧺ b ⧺ c ⧺ d) ≡ len a + (len b + (len c + len d))
len-append₄ a b c d = omega (arith, len-append a (b ⧺ c ⧺ d), len-append b (c ⧺ d), len-append c d)

prefix-le :
    (fallback prefix : String) (n : ℕ)
    → len fallback ≤ n
    → len prefix ≤ n
    → len (if prefix == "" then fallback else prefix) ≤ n
prefix-le fallback prefix n f p = ground arith

hashed_name-le :
    (fallback base suffix : String) (max_len : ℕ)
    → len fallback + len suffix + 9 ≤ max_len
    → len (hashed_name fallback base suffix max_len) ≤ max_len
unfolding hashed_name
hashed_name-le fallback base suffix max_len room =
    let keep = max_len - len suffix - 1 - len (hex8 (fnv32a base)) in
    let prefix = trim dash_or_dot (slice base 0 keep) in
    let chosen = if prefix == "" then fallback else prefix in
    omega (
      arith,
      len-append₄ chosen "-" (hex8 (fnv32a base)) suffix,
      len-hex8 (fnv32a base),
      prefix-le fallback prefix keep (omega (arith, len-hex8 (fnv32a base)))
          (omega (arith, len-trim-le dash_or_dot (slice base 0 keep), len-slice-le base keep)),
    )

-- A bounded name fits wherever the fallback word, the hash and the suffix do.
pub bounded_name-le :
    (fallback base suffix : String) (max_len : ℕ)
    → len fallback + len suffix + 9 ≤ max_len
    → len (bounded_name fallback base suffix max_len) ≤ max_len
unfolding bounded_name
bounded_name-le fallback base suffix max_len room =
    ground (arith, hashed_name-le fallback base suffix max_len room)

gate_upgrade_name-le : (name hash : String) → len (gate_upgrade_name name hash) ≤ 63
unfolding gate_upgrade_name
gate_upgrade_name-le name hash =
    let cut = slice name 0 (min (len name) 50) in
    omega (
      arith,
      len-append (trim_right dash cut) ("-upg-" ⧺ slice hash 0 8),
      len-append "-upg-" (slice hash 0 8),
      len-trim_right-le dash cut,
      len-slice-le name (min (len name) 50),
      len-slice-le hash 8,
    )

-- Whatever the object's name and the hash: Job and label names of upgrades and backups and the name of
-- an OdooUpgrade that the gate creates fit into 63 bytes, CronJob names into 52.
pub derived_names_fit :
    (name hash : String)
    → (len (upgrade_job_name name) ≤ 63)
      × (len (upgrade_label_value name) ≤ 63)
      × (len (backup_job_name name) ≤ 63)
      × (len (backup_label_value name) ≤ 63)
      × (len (backup_cron_job_name name) ≤ 52)
      × (len (gate_upgrade_name name hash) ≤ 63)
unfolding upgrade_job_name upgrade_label_value backup_job_name backup_label_value
    backup_cron_job_name
derived_names_fit name hash = (
  bounded_name-le "upgrade" name "-run" 63 (omega arith),
  bounded_name-le "upgrade" name "" 63 (omega arith),
  bounded_name-le "backup" name "-run" 63 (omega arith),
  bounded_name-le "backup" name "" 63 (omega arith),
  bounded_name-le "backup" name "-sched" 52 (omega arith),
  gate_upgrade_name-le name hash,
)
