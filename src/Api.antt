-- ===== src/Api.antt =====
-- The custom resources of api/v1: the specs and statuses of the four kinds. JSON tags and generated
-- code are left out. A pointer is an `Option`; an empty string is an unset field, as in the source.
pub mod Reasons
pub mod Instance
use odoo_k8_operator.Base.{ℕ, ℤ, String, Bool, Option, List}
use odoo_k8_operator.Kube.{ObjectMeta, Condition, Time}

pub record OdooInstanceRef : Type 0 where
  pub name : String
  pub namespace : String

pub record LocalSecretRef : Type 0 where
  pub name : String

pub record OdooAddonSpec : Type 0 where
  pub git_url : String
  pub git_ref : String
  pub git_secret_ref : Option LocalSecretRef
  pub addon_path : String
  pub single_addon : Bool
  pub module_name : String
  pub instance_ref : OdooInstanceRef
  pub read_only : Bool

pub record OdooAddonStatus : Type 0 where
  pub ready : Bool
  pub phase : String
  pub cloned_commit : String
  pub last_sync_time : Option Time
  pub modules : List String
  pub message : String
  pub conditions : List Condition

pub record OdooAddon : Type 0 where
  pub meta : ObjectMeta
  pub spec : OdooAddonSpec
  pub status : OdooAddonStatus

pub record OdooUpgradeSpec : Type 0 where
  pub instance_ref : OdooInstanceRef
  pub modules : List String
  pub install_modules : List String
  pub database : String
  pub timeout_seconds : Option ℤ
  pub with_demo : Bool
  pub admin_user_password_secret : String

pub record OdooUpgradeStatus : Type 0 where
  pub phase : String
  pub job_name : String
  pub message : String
  pub start_time : Option Time
  pub completion_time : Option Time
  pub observed_generation : ℕ
  pub conditions : List Condition

pub record OdooUpgrade : Type 0 where
  pub meta : ObjectMeta
  pub spec : OdooUpgradeSpec
  pub status : OdooUpgradeStatus

pub record BackupPvcDestination : Type 0 where
  pub claim_name : String
  pub sub_path : String

pub record BackupS3Destination : Type 0 where
  pub bucket : String
  pub prefix : String
  pub endpoint : String
  pub region : String
  pub credentials_secret : String
  pub force_path_style : Bool

pub record BackupDestination : Type 0 where
  pub pvc : Option BackupPvcDestination
  pub s3 : Option BackupS3Destination

pub record OdooBackupSpec : Type 0 where
  pub instance_ref : OdooInstanceRef
  pub database : String
  pub include_filestore : Option Bool
  pub destination : BackupDestination
  pub retention : Option ℤ
  pub scratch_size : String
  pub timeout_seconds : Option ℤ
  pub schedule : String
  pub suspend : Bool

pub record OdooBackupStatus : Type 0 where
  pub phase : String
  pub job_name : String
  pub cron_job_name : String
  pub start_time : Option Time
  pub completion_time : Option Time
  pub last_schedule_time : Option Time
  pub last_successful_time : Option Time
  pub last_backup : String
  pub message : String
  pub observed_generation : ℕ
  pub conditions : List Condition

pub record OdooBackup : Type 0 where
  pub meta : ObjectMeta
  pub spec : OdooBackupSpec
  pub status : OdooBackupStatus
