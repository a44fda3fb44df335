-- ===== src/Backup/Settings.antt =====
-- What is computed from the spec of an OdooBackup and from its instance: the settings and the
-- environments of internal/controller/odoobackup_job.go.
use odoo_k8_operator.Base.{
  ℤ, pos, ◌<ℤ◌, String, Bool, true, false, ◌&&◌, not, ◌==◌, if◌then◌else◌, List, [], ◌∷◌, ◌++◌,
  Option, none, some, signed,
}
use odoo_k8_operator.Names.{backup_label_value}
use odoo_k8_operator.Kube.Batch.{Labels, EnvVar, plain, from_secret, JobSpec}
use odoo_k8_operator.Api.{OdooBackup, BackupS3Destination}
use odoo_k8_operator.Api.Instance.{OdooInstance, OdooInstanceSpec}
use odoo_k8_operator.Upgrade.{read_write_once, read_write_many}
use odoo_k8_operator.Upgrade.Job.{label_managed_by}
use odoo_k8_operator.Backup.Validate.{ParsedQuantity, not_quantity, quantity}
use odoo_k8_operator.Backup.Script.{
  env_backup_database, env_backup_retention, env_backup_bucket, env_backup_prefix,
  env_backup_endpoint, env_backup_force_path,
}

-- What the code calls of other packages, and the operator's environment.
pub record BackupTools : Type 0 where
  -- resource.ParseQuantity
  pub parse_quantity : String → ParsedQuantity
  -- OPERATOR_BACKUP_IMAGE and OPERATOR_S3_IMAGE
  pub backup_image_env : String
  pub s3_image_env : String
  -- json.Marshal at a Job spec
  pub marshal : JobSpec → Option String
  -- equality.Semantic.DeepEqual at labels
  pub labels_equal : Labels → Labels → Bool

abbrev pub backup_label_key : String
backup_label_key = "odoo.operator.io/backup"

abbrev pub backup_hash_annotation : String
backup_hash_annotation = "odoo.operator.io/backup-hash"

abbrev pub backup_default_timeout : ℤ
backup_default_timeout = pos 3600

abbrev pub backup_default_scratch : String
backup_default_scratch = "10Gi"

-- backupImage
unfoldable pub backup_image : BackupTools → String
backup_image t = if not (t.backup_image_env == "") then t.backup_image_env else "postgres:17-alpine"

-- backupS3Image
unfoldable pub backup_s3_image : BackupTools → String
backup_s3_image t = if not (t.s3_image_env == "") then t.s3_image_env else "amazon/aws-cli:2.27.50"

-- backupLabels
unfoldable pub backup_labels : String → Labels
unfolding backup_label_value
backup_labels name =
    (label_managed_by, "odoo-k8-operator") ∷ (backup_label_key, backup_label_value name) ∷ []

-- backupDatabase
unfoldable pub backup_database : OdooBackup → OdooInstance → String
backup_database bk inst =
    if not (bk.spec.database == "") then bk.spec.database else inst.spec.postgres.database

-- backupIncludeFilestore
unfoldable pub backup_include_filestore : OdooBackup → Bool
backup_include_filestore bk = elim bk.spec.include_filestore [ none ↦ true | some b ↦ b ]

-- backupRetention
unfoldable pub backup_retention : OdooBackup → ℤ
backup_retention bk = elim bk.spec.retention [ none ↦ pos 0 | some n ↦ n ]

-- backupTimeout
unfoldable pub backup_timeout : OdooBackup → ℤ
backup_timeout bk = elim bk.spec.timeout_seconds [ none ↦ backup_default_timeout | some t ↦ t ]

pub quantity_or_default : String → ParsedQuantity → String
quantity_or_default raw (not_quantity e) = backup_default_scratch
quantity_or_default raw (quantity positive) = raw

-- backupScratchQuantity, as the text that it is parsed from
unfoldable pub backup_scratch_quantity : BackupTools → OdooBackup → String
unfolding quantity_or_default
backup_scratch_quantity t bk =
    let raw = if bk.spec.scratch_size == "" then backup_default_scratch else bk.spec.scratch_size in
    quantity_or_default raw (t.parse_quantity raw)

-- backupAccessMode
unfoldable pub backup_access_mode : String → String
backup_access_mode mode = if mode == "" then read_write_once else mode

-- backupNeedsNodePin
unfoldable pub backup_needs_node_pin : OdooInstanceSpec → Bool → Bool
unfolding backup_access_mode
backup_needs_node_pin spec include_filestore =
    include_filestore && not (backup_access_mode spec.data_volume.access_mode == read_write_many)

-- secretEnv
abbrev pub secret_env : String → String → String → EnvVar
secret_env name secret key = from_secret name secret key

-- append of one value under a condition
unfoldable pub when : Bool → EnvVar → List EnvVar
when true e = e ∷ []
when false e = []

-- backupPGEnv
unfoldable pub backup_pg_env : OdooInstanceSpec → String → List EnvVar
unfolding when
backup_pg_env spec database =
    let pg = spec.postgres in
    (plain "PGDATABASE" database ∷ [])
    ++ (when (not (pg.host == "")) (plain "PGHOST" pg.host)
        ++ ((plain "PGPORT" (if pos 0 <ℤ pg.port then signed pg.port else "5432") ∷ [])
            ++ (when (not (pg.user == "")) (plain "PGUSER" pg.user)
                ++ (when (not (pg.password_secret == ""))
                      (secret_env "PGPASSWORD" pg.password_secret "password")
                    ++ (plain "PGSSLMODE" "require" ∷ [])))))

-- backupS3Env
unfoldable pub backup_s3_env : BackupS3Destination → ℤ → String → List EnvVar
unfolding when
backup_s3_env s3 retention database =
    (plain env_backup_database database
      ∷ plain env_backup_retention (signed retention)
      ∷ plain env_backup_bucket s3.bucket
      ∷ plain env_backup_force_path (if s3.force_path_style then "true" else "false")
      ∷ plain "HOME" "/tmp"
      ∷ secret_env "AWS_ACCESS_KEY_ID" s3.credentials_secret "accessKeyID"
      ∷ secret_env "AWS_SECRET_ACCESS_KEY" s3.credentials_secret "secretAccessKey"
      ∷ [])
    ++ (when (not (s3.prefix == "")) (plain env_backup_prefix s3.prefix)
        ++ (when (not (s3.endpoint == "")) (plain env_backup_endpoint s3.endpoint)
            ++ when (not (s3.region == "")) (plain "AWS_DEFAULT_REGION" s3.region)))
