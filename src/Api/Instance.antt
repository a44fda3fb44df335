-- ===== src/Api/Instance.antt =====
-- The OdooInstance of api/v1/odooinstance_types.go. Resource requirements, which the code only
-- copies, are left out.
use odoo_k8_operator.Base.{ℕ, ℤ, String, Bool, Option, List}
use odoo_k8_operator.Kube.{ObjectMeta, Condition}

pub record CronSpec : Type 0 where
  pub enabled : Bool
  pub max_cron_threads : Option ℤ

pub record InitializeSpec : Type 0 where
  pub modules : List String
  pub with_demo : Bool
  pub admin_user_password_secret : String
  pub timeout_seconds : Option ℤ

pub record UpgradeSpec : Type 0 where
  pub modules : List String
  pub timeout_seconds : Option ℤ

pub record AddonVolumeSpec : Type 0 where
  pub storage_class : Option String
  pub size : String
  pub access_mode : String

pub record DataVolumeSpec : Type 0 where
  pub storage_class : Option String
  pub size : String
  pub access_mode : String
  pub retain_on_delete : Option Bool

pub record PostgresSpec : Type 0 where
  pub host : String
  pub port : ℤ
  pub database : String
  pub user : String
  pub password_secret : String

pub record OdooInstanceSpec : Type 0 where
  pub image : String
  pub replicas : ℤ
  pub version : String
  pub edition : String
  pub addons : AddonVolumeSpec
  pub data_volume : DataVolumeSpec
  pub postgres : PostgresSpec
  -- A map: one value to a key, in no order.
  pub config : List (String × String)
  pub admin_password_secret : String
  pub upgrade : Option UpgradeSpec
  pub initialize : Option InitializeSpec
  pub cron : Option CronSpec

pub record OdooInstanceStatus : Type 0 where
  pub ready : Bool
  pub phase : String
  pub addon_paths : List String
  pub observed_generation : ℕ
  pub conditions : List Condition
  pub message : String
  pub initialized : Bool
  pub init_upgrade : String
  pub applied_addons_hash : String
  pub active_upgrade : String

pub record OdooInstance : Type 0 where
  pub meta : ObjectMeta
  pub spec : OdooInstanceSpec
  pub status : OdooInstanceStatus
