-- ===== src/Instance/Config.antt =====
-- internal/controller/odooinstance_config.go: odoo.conf from the defaults, spec.config, spec.cron and
-- spec.postgres. A Go map is a list of entries in which the first of a key counts, so a write puts
-- an entry in front. Errors that are returned are `inl`.
pub mod Entries
pub mod Checks
pub mod Render
pub mod Blocked
use Prim.Native.Char.{code}
use Prim.Native.String
use odoo_k8_operator.Base.{
  ℕ, zero, suc, ℤ, pos, negsuc, signed, String, Bool, true, false, ◌&&◌, ◌||◌, not, ◌⧺◌, ◌==◌, ◌=ℕ◌,
  if◌then◌else◌, is_some, List, [], ◌∷◌, map, Option, none, some, sort, compact, quote, ◌⊎◌, inl,
  inr,
}
use odoo_k8_operator.Errors.{Error, text}
use odoo_k8_operator.Api.Instance.{OdooInstanceSpec, CronSpec, PostgresSpec}
use odoo_k8_operator.Instance.Addons.{addons_mount_path}

-- map[string]string
abbrev pub Entries : Type 0
Entries = List (String × String)

-- v, ok := m[key]
abbrev pub value_of : String → Entries → Option String
value_of key [] = none
value_of key (e ∷ rest) = let below = value_of key rest in if e.0 == key then some e.1 else below

-- m[key]
abbrev pub shown : Option String → String
shown none = ""
shown (some v) = v

abbrev pub keys_of : Entries → List String
keys_of m = map (λ (e : String × String). e.0) m

-- strings.ContainsAny
abbrev pub contains_any : (ℕ → Bool) → String → Bool
contains_any p String.[] = false
contains_any p (String.◌∷◌ c s) = p (code c) || contains_any p s

abbrev pub newline_char : ℕ → Bool
newline_char c = c =ℕ 10 || c =ℕ 13

-- "=[]\n\r"
abbrev pub illegal_key_char : ℕ → Bool
illegal_key_char c = c =ℕ b'=' || c =ℕ b'[' || c =ℕ b']' || newline_char c

-- blockedConfigKeys
unfoldable pub blocked_config_key : String → Bool
blocked_config_key key = key == "admin_passwd" || key == "db_password" || key == "dbfilter"

-- odooConfDefaults
unfoldable pub odoo_conf_defaults : Entries
odoo_conf_defaults =
    ("addons_path", addons_mount_path) ∷ ("proxy_mode", "True") ∷ ("list_db", "False") ∷ []

-- checkConfValue
unfoldable pub check_conf_value : String → String → Option Error
check_conf_value key value =
    if contains_any newline_char value
    then some (text ("config value for key " ⧺ quote key ⧺ " contains illegal newline characters"))
    else none

-- What the loop over spec.config finds wrong with an entry.
unfoldable pub check_config_entry : String → String → Option Error
unfolding blocked_config_key check_conf_value
check_config_entry key value =
    if blocked_config_key key
    then some (text ("config key " ⧺ quote key ⧺ " is not permitted in spec.config"))
    else if key == "" || contains_any illegal_key_char key
    then some (text ("config key " ⧺ quote key ⧺ " contains illegal characters"))
    else check_conf_value key value

-- An error returns; without one the work goes on.
abbrev pub checked {ℓ} : {A : Type ℓ} → Option Error → Error ⊎ A → Error ⊎ A
checked (some e) next = inl e
checked none next = next

abbrev pub and_then {ℓ} : {A B : Type ℓ} → Error ⊎ A → (A → Error ⊎ B) → Error ⊎ B
and_then (inl e) next = inl e
and_then (inr a) next = next a

-- The loop over the keys of spec.config, in the order given.
unfoldable pub merge_config : Entries → List String → Entries → Error ⊎ Entries
unfolding check_config_entry
merge_config config [] merged = inr merged
merge_config config (key ∷ keys) merged =
    let value = shown (value_of key config) in
    checked (check_config_entry key value) (merge_config config keys ((key, value) ∷ merged))

-- spec.Cron != nil && spec.Cron.Enabled
abbrev pub cron_enabled : Option CronSpec → Bool
cron_enabled none = false
cron_enabled (some c) = c.enabled

-- The web pods run no cron workers where the cron pod does.
unfoldable pub merge_cron : OdooInstanceSpec → Entries → Error ⊎ Entries
merge_cron spec merged =
    if cron_enabled spec.cron
    then (if is_some (value_of "max_cron_threads" spec.config)
        then inl (
            text (
              "config key "
              ⧺ quote "max_cron_threads"
              ⧺ " cannot be set in spec.config while spec.cron.enabled is true; "
              ⧺ "the cron Deployment sets the cron workers through spec.cron.maxCronThreads"))
        else inr (("max_cron_threads", "0") ∷ merged))
    else inr merged

-- dbPort
abbrev pub port_or_default : ℤ → ℤ
port_or_default (pos zero) = pos 5432
port_or_default (pos (suc n)) = pos (suc n)
port_or_default (negsuc n) = negsuc n

-- dbSettings
unfoldable pub db_settings : PostgresSpec → Entries
db_settings postgres =
    ("db_host", postgres.host)
    ∷ ("db_port", signed (port_or_default postgres.port))
    ∷ ("db_name", postgres.database)
    ∷ ("db_user", postgres.user)
    ∷ ("db_sslmode", "require")
    ∷ []

-- The loop over dbSettings.
unfoldable pub merge_settings : Entries → Entries → Error ⊎ Entries
unfolding check_conf_value
merge_settings [] merged = inr merged
merge_settings (e ∷ rest) merged =
    checked (check_conf_value e.0 e.1) (merge_settings rest (e ∷ merged))

unfoldable pub merge_database : PostgresSpec → Entries → Error ⊎ Entries
unfolding db_settings merge_settings
merge_database postgres merged =
    if not (postgres.database == "")
    then merge_settings (db_settings postgres) merged
    else inr merged

-- The lines of some keys.
unfoldable pub write_keys : Entries → List String → String
write_keys merged [] = ""
write_keys merged (key ∷ keys) =
    (key ⧺ " = " ⧺ shown (value_of key merged)) ⧺ "\n" ⧺ write_keys merged keys

-- slices.Sorted(maps.Keys(m))
unfoldable pub sorted_keys : Entries → List String
unfolding sort compact
sorted_keys m = compact (sort (keys_of m))

unfoldable pub write_conf : Entries → String
unfolding write_keys sorted_keys
write_conf merged = "[options]\n" ⧺ write_keys merged (sorted_keys merged)

-- renderOdooConf
unfoldable pub render_odoo_conf : OdooInstanceSpec → Error ⊎ String
unfolding odoo_conf_defaults merge_config merge_cron merge_database sorted_keys write_conf
render_odoo_conf spec =
    and_then (merge_config spec.config (sorted_keys spec.config) odoo_conf_defaults) (λ user.
      and_then (merge_cron spec user) (λ with_cron.
        and_then (merge_database spec.postgres with_cron) (λ merged. inr (write_conf merged))))
