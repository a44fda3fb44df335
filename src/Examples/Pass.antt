-- ===== src/Examples/Pass.antt =====
-- A pass over the instance of the examples, whose database has to be initialised first, and its pods.
use odoo_k8_operator.Base.{true, false, pos, [], ◌∷◌, none, inr}
use odoo_k8_operator.Kube.{got, refused, not_found}
use odoo_k8_operator.Instance.Workload.{RolloutHashes}
use odoo_k8_operator.Instance.Pass.{InstanceReads, InstanceTools}
use odoo_k8_operator.Examples.Samples.{shop, machinery}

abbrev hashes : RolloutHashes
hashes = record { config = "c0"; secrets = "5e"; addons = "ad" }

abbrev pub shop_tools : InstanceTools
shop_tools = record {
  machinery = machinery;
  own = λ uid refs. inr (record { uid = uid; controller = true } ∷ refs);
  parse_quantity = λ size. inr size;
  sha = λ s. s;
  hex = λ s. s;
}

-- Nothing is there yet, and every write goes through.
abbrev pub shop_reads : InstanceReads
shop_reads = record {
  instance_reply = got shop;
  deleting = false;
  has_finalizer = false;
  update_metadata = none;
  claim = λ name. refused (not_found name);
  write_claim = λ name. none;
  config_map = none;
  secret = λ name. got (record { keys = "password" ∷ []; value_of = λ key. "0a" });
  addons = got [];
  init = record {
    deployment = refused (not_found "");
    upgrade = refused (not_found "");
    secret = none;
    set_owner = none;
    create = none;
  };
  gate = record { upgrade = refused (not_found ""); set_owner = none; create = none };
  write_deployment = none;
  deployment = got (pos 0);
  budget = refused (not_found "");
  write_budget = none;
  delete_budget = none;
  service = none;
  cron = refused (not_found "");
  write_cron = inr (record { created = true; replicas = pos 0; ready = pos 0 });
  delete_cron = none;
  write_status = none;
  write_failed_status = none;
  recorder = true;
}
