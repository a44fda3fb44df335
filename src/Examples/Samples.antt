-- ===== src/Examples/Samples.antt =====
-- The objects that the examples share.
use odoo_k8_operator.Base.{ℕ, pos, String, true, false, List, [], ◌∷◌, none, some}
use odoo_k8_operator.Kube.{ObjectMeta, got}
use odoo_k8_operator.Errors.{text, err}
use odoo_k8_operator.PodLogs.{LogReads}
use odoo_k8_operator.Kube.Batch.{Job}
use odoo_k8_operator.Kube.Meta.Plain.{plain}
use odoo_k8_operator.Kube.Retry.{is_conflict}
use odoo_k8_operator.Machinery.{Machinery}
use odoo_k8_operator.Api.{OdooInstanceRef, OdooUpgrade}
use odoo_k8_operator.Api.Instance.{OdooInstance}

-- The functions of other packages; no two statuses count as equal, so that every write goes out.
abbrev pub machinery : Machinery
machinery = record {
  conditions = plain 500;
  again = is_conflict;
  addon_status_equal = λ a b. false;
  upgrade_status_equal = λ a b. false;
  backup_status_equal = λ a b. false;
}

abbrev pub shop_meta : String → ℕ → ObjectMeta
shop_meta name created = record {
  name = name;
  namespace = "erp";
  uid = name;
  generation = 1;
  created = created;
}

abbrev pub shop_ref : OdooInstanceRef
shop_ref = record { name = "shop"; namespace = "" }

abbrev pub upgrade_in : String → ℕ → String → String → OdooUpgrade
upgrade_in name created phase job_name = record {
  meta = shop_meta name created;
  spec = record {
    instance_ref = shop_ref;
    modules = "sale" ∷ [];
    install_modules = [];
    database = "";
    timeout_seconds = none;
    with_demo = false;
    admin_user_password_secret = "";
  };
  status = record {
    phase = phase;
    job_name = job_name;
    message = "";
    start_time = none;
    completion_time = none;
    observed_generation = 0;
    conditions = [];
  };
}

abbrev pub first_upgrade : OdooUpgrade
first_upgrade = upgrade_in "first" 10 "" ""

abbrev pub second_upgrade : OdooUpgrade
second_upgrade = upgrade_in "second" 20 "Pending" ""

abbrev pub running_upgrade : OdooUpgrade
running_upgrade = upgrade_in "first" 10 "Running" "first-run"

abbrev pub shop : OdooInstance
shop = record {
  meta = shop_meta "shop" 1;
  spec = record {
    image = "";
    replicas = pos 1;
    version = "19.0";
    edition = "community";
    addons = record { storage_class = none; size = "1Gi"; access_mode = "" };
    data_volume = record {
      storage_class = none;
      size = "1Gi";
      access_mode = "";
      retain_on_delete = none;
    };
    postgres = record {
      host = "db";
      port = pos 5432;
      database = "shop";
      user = "odoo";
      password_secret = "pg";
    };
    config = [];
    admin_password_secret = "admin";
    upgrade = some (record { modules = "all" ∷ []; timeout_seconds = none });
    initialize = some (record {
      modules = "base" ∷ [];
      with_demo = false;
      admin_user_password_secret = "login";
      timeout_seconds = none;
    });
    cron = none;
  };
  status = record {
    ready = true;
    phase = "Running";
    addon_paths = [];
    observed_generation = 1;
    conditions = [];
    message = "";
    initialized = false;
    init_upgrade = "";
    applied_addons_hash = "0000aaaa0000";
    active_upgrade = "";
  };
}

abbrev pub succeeded_job : String → List (String × String) → Job
succeeded_job name annotations = record {
  meta = shop_meta name 30;
  annotations = annotations;
  status = record { succeeded = 1; failed_pods = 0; conditions = []; completion_time = some 90 };
}

-- No log can be read.
abbrev pub no_logs : LogReads
no_logs = record { clientset = false; pods = got []; stream = λ pod container. err (text "no log") }
