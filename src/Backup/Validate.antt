-- ===== src/Backup/Validate.antt =====
-- internal/controller/odoobackup_validate.go. The regular expressions are sets of characters, with
-- what they ask of the length and of both ends.
pub mod Paths
pub mod Laws
use Prim.Native.Char.{code}
use Prim.Native.String
use odoo_k8_operator.Base.{
  ℕ, suc, ◌+◌, ℤ, pos, ◌<ℤ◌, signed, String, Bool, true, false, ◌&&◌, ◌||◌, not, ◌==◌, ◌⧺◌, ◌=ℕ◌,
  leb, len, if◌then◌else◌, is_some, bool_eq, List, [], ◌∷◌, any, Option, none, some, quote, decimal,
  starts_with,
}
use odoo_k8_operator.Errors.{Error, text, wrap}
use odoo_k8_operator.Api.{OdooBackup, BackupDestination, BackupPvcDestination, BackupS3Destination}
use odoo_k8_operator.Shell.{all_chars, alphanumeric}
use odoo_k8_operator.JobStatus.{is_space}

-- [a-zA-Z0-9._/-]
abbrev pub backup_path_char : ℕ → Bool
backup_path_char c = alphanumeric c || c =ℕ b'.' || c =ℕ b'_' || c =ℕ b'/' || c =ℕ b'-'

-- [a-zA-Z0-9_.-]
abbrev pub backup_database_char : ℕ → Bool
backup_database_char c = alphanumeric c || c =ℕ b'_' || c =ℕ b'.' || c =ℕ b'-'

-- [a-z0-9]
abbrev pub bucket_end_char : ℕ → Bool
bucket_end_char c = (leb b'a' c && leb c b'z') || (leb b'0' c && leb c b'9')

-- [a-z0-9.-]
abbrev pub bucket_char : ℕ → Bool
bucket_char c = bucket_end_char c || c =ℕ b'.' || c =ℕ b'-'

first_is : (ℕ → Bool) → String → Bool
first_is p String.[] = false
first_is p (String.◌∷◌ c s) = p (code c)

last_is : (ℕ → Bool) → String → Bool
last_is p String.[] = false
last_is p (String.◌∷◌ c s) = let below = last_is p s in if s == "" then p (code c) else below

-- backupBucketRe: 3 to 63 characters
unfoldable pub valid_bucket : String → Bool
unfolding all_chars first_is last_is
valid_bucket s =
    leb 3 (len s)
    && leb (len s) 63
    && all_chars bucket_char s
    && first_is bucket_end_char s
    && last_is bucket_end_char s

-- strings.TrimSuffix(s, "/")
unfoldable pub trim_slash : String → String
trim_slash String.[] = ""
trim_slash (String.◌∷◌ c s) =
    let below = trim_slash s in if s == "" && code c =ℕ b'/' then "" else String.◌∷◌ c below

-- A character in front of the first text of a list.
in_front : String → List String → List String
in_front c [] = c ∷ []
in_front c (x ∷ xs) = (c ⧺ x) ∷ xs

-- strings.Split(s, "/")
unfoldable pub split_slash : String → List String
unfolding in_front
split_slash String.[] = "" ∷ []
split_slash (String.◌∷◌ c s) =
    let below = split_slash s in
    if code c =ℕ b'/' then "" ∷ below else in_front (String.◌∷◌ c String.[]) below

-- The loop over the segments.
check_segments : String → String → List String → Option Error
check_segments field value [] = none
check_segments field value (seg ∷ rest) =
    let later = check_segments field value rest in
    if seg == ""
    then some (text (field ⧺ " " ⧺ quote value ⧺ " must not contain empty segments"))
    else if seg == ".."
    then some (text (field ⧺ " " ⧺ quote value ⧺ " must not contain '..'"))
    else later

-- backupValidatePath
unfoldable pub backup_validate_path : String → String → Option Error
unfolding all_chars check_segments trim_slash split_slash
backup_validate_path field value =
    if value == ""
    then none
    else if not (all_chars backup_path_char value)
    then some (
        text
          (field ⧺ " " ⧺ quote value ⧺ " may only contain letters, digits, '.', '_', '-' and '/'"))
    else if starts_with value "/"
    then some (text (field ⧺ " " ⧺ quote value ⧺ " must not start with '/'"))
    else check_segments field value (split_slash (trim_slash value))

check_pvc : BackupPvcDestination → Option Error
unfolding backup_validate_path
check_pvc pvc =
    if pvc.claim_name == ""
    then some (text "destination.pvc.claimName is required")
    else backup_validate_path "destination.pvc.subPath" pvc.sub_path

check_s3_rest : BackupS3Destination → Option Error → Option Error
check_s3_rest s3 (some e) = some e
check_s3_rest s3 none =
    if not (s3.endpoint == "")
      && not (starts_with s3.endpoint "http://")
      && not (starts_with s3.endpoint "https://")
    then some (
        text
          ("destination.s3.endpoint " ⧺ quote s3.endpoint ⧺ " must start with http:// or https://"))
    else if s3.credentials_secret == ""
    then some (text "destination.s3.credentialsSecret is required")
    else none

check_s3 : BackupS3Destination → Option Error
unfolding valid_bucket check_s3_rest backup_validate_path
check_s3 s3 =
    if not (valid_bucket s3.bucket)
    then some (text ("destination.s3.bucket " ⧺ quote s3.bucket ⧺ " is not a valid bucket name"))
    else check_s3_rest s3 (backup_validate_path "destination.s3.prefix" s3.prefix)

one_destination : Error
one_destination = text "destination: exactly one of pvc or s3 must be set"

check_destination : Option BackupPvcDestination → Option BackupS3Destination → Option Error
unfolding check_pvc check_s3 one_destination
check_destination (some pvc) (some s3) = some one_destination
check_destination none none = some one_destination
check_destination (some pvc) none = check_pvc pvc
check_destination none (some s3) = check_s3 s3

-- backupValidateDestination
unfoldable pub backup_validate_destination : BackupDestination → Option Error
unfolding check_destination
backup_validate_destination d = check_destination d.pvc d.s3

-- len(strings.Fields(s)): the runs of characters that are no space
fields_from : Bool → String → ℕ
fields_from in_field String.[] = 0
fields_from in_field (String.◌∷◌ c s) =
    let below = fields_from (not (is_space (code c))) s in
    if not in_field && not (is_space (code c)) then suc below else below

unfoldable pub fields : String → ℕ
unfolding fields_from
fields s = fields_from false s

-- What resource.ParseQuantity says: an error, or whether the quantity is above zero.
pub data ParsedQuantity : Type 0 where
  not_quantity : Error → ParsedQuantity
  quantity : Bool → ParsedQuantity

-- Go's chain of `if ...; { return err }`.
or_else : Option Error → Option Error → Option Error
or_else (some e) rest = some e
or_else none rest = rest

check_retention : Option ℤ → Option Error
check_retention none = none
check_retention (some r) =
    if r <ℤ pos 1 then some (text ("retention must be at least 1, got " ⧺ signed r)) else none

check_quantity : String → ParsedQuantity → Option Error
check_quantity size (not_quantity e) =
    some (wrap ("scratchSize " ⧺ quote size ⧺ " is not a quantity: ") e)
check_quantity size (quantity true) = none
check_quantity size (quantity false) =
    some (text ("scratchSize " ⧺ quote size ⧺ " must be positive"))

abbrev pub backup_min_timeout : ℤ
backup_min_timeout = pos 60

abbrev pub backup_max_timeout : ℤ
backup_max_timeout = pos 86400

check_timeout : Option ℤ → Option Error
check_timeout none = none
check_timeout (some t) =
    if t <ℤ backup_min_timeout || backup_max_timeout <ℤ t
    then some (text ("timeoutSeconds must be between 60 and 86400, got " ⧺ signed t))
    else none

check_schedule : String → Option Error
unfolding fields
check_schedule schedule =
    if not (schedule == "") && not (fields schedule =ℕ 5)
    then some (
        text
          ("schedule " ⧺ quote schedule ⧺ " must have 5 fields, got " ⧺ decimal (fields schedule)))
    else none

check_instance : OdooBackup → Option Error
check_instance bk =
    let ns = bk.spec.instance_ref.namespace in
    if bk.spec.instance_ref.name == ""
    then some (text "instanceRef.name is required")
    else if not (ns == "") && not (ns == bk.meta.namespace)
    then some (
        text (
          "instanceRef.namespace "
          ⧺ quote ns
          ⧺ " must be empty or the backup's namespace "
          ⧺ quote bk.meta.namespace))
    else none

check_database : String → Option Error
unfolding all_chars
check_database db =
    if not (db == "") && not (all_chars backup_database_char db)
    then some
        (text ("database " ⧺ quote db ⧺ " may only contain letters, digits, '_', '.' and '-'"))
    else none

-- backupValidateSpec; `parse` is resource.ParseQuantity.
unfoldable pub backup_validate_spec : (String → ParsedQuantity) → OdooBackup → Option Error
unfolding or_else check_instance check_database backup_validate_destination check_retention
    check_quantity check_timeout check_schedule
backup_validate_spec parse bk = or_else (check_instance bk) (
    or_else (check_database bk.spec.database) (
      or_else (backup_validate_destination bk.spec.destination) (
        or_else (check_retention bk.spec.retention) (
          or_else
            (if not (bk.spec.scratch_size == "")
              then check_quantity bk.spec.scratch_size (parse bk.spec.scratch_size)
              else none)
            (or_else (check_timeout bk.spec.timeout_seconds) (check_schedule bk.spec.schedule))))))
