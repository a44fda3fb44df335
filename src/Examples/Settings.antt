-- ===== src/Examples/Settings.antt =====
-- The settings of an instance: its odoo.conf and its addons.
use mathlib.Core.List.{Permᴰ}
use odoo_k8_operator.Base.{
  String, true, false, signed, decimal, List, [], ◌∷◌, ◌≡◌, refl, inr, IsRising, none,
}
use odoo_k8_operator.Api.{OdooAddon}
use odoo_k8_operator.Api.Instance.{OdooInstanceSpec}
use odoo_k8_operator.Instance.Addons.{filter_ready_addons, addon_mount_paths, addons_hash}
use odoo_k8_operator.Instance.Addons.Order.{addon_mount_paths-order}
use odoo_k8_operator.Instance.Config.{render_odoo_conf}
use odoo_k8_operator.Instance.Config.Checks.{operator_key}
use odoo_k8_operator.Instance.Config.Entries.{is_in}
use odoo_k8_operator.Instance.Config.Render.{IsConf, IsRendering, render_odoo_conf-IsRendering}
use odoo_k8_operator.Instance.Config.Blocked.{render_odoo_conf-unblocked}
use odoo_k8_operator.Examples.Samples.{shop, shop_meta}
use odoo_k8_operator.Examples.Addon.{addon_in}

abbrev ready_addon : String → OdooAddon
ready_addon name = record (addon_in "Synced" none) {
  meta = shop_meta name 5;
  status = record (addon_in "Synced" none).status { ready = true; cloned_commit = "89ab" };
}

abbrev identity : String → String
identity s = s

listed_twice :
    Permᴰ (ready_addon "web" ∷ ready_addon "crm" ∷ []) (ready_addon "crm" ∷ ready_addon "web" ∷ [])
listed_twice = Permᴰ.swap refl refl

addon_mount_paths-order_example :
    (addon_mount_paths (filter_ready_addons (ready_addon "web" ∷ ready_addon "crm" ∷ []) "shop")
      ≡ addon_mount_paths (filter_ready_addons (ready_addon "crm" ∷ ready_addon "web" ∷ []) "shop"))
    × ((addons_hash identity
            (filter_ready_addons (ready_addon "web" ∷ ready_addon "crm" ∷ []) "shop")
          ≡ addons_hash identity
              (filter_ready_addons (ready_addon "crm" ∷ ready_addon "web" ∷ []) "shop"))
        × IsRising (
            addon_mount_paths
              (filter_ready_addons (ready_addon "web" ∷ ready_addon "crm" ∷ []) "shop")))
addon_mount_paths-order_example = addon_mount_paths-order identity "shop" listed_twice

abbrev tuned : OdooInstanceSpec
tuned = record shop.spec { config = ("workers", "4") ∷ ("proxy_mode", "False") ∷ [] }

render_odoo_conf-IsRendering_example : IsRendering tuned (render_odoo_conf tuned)
render_odoo_conf-IsRendering_example = render_odoo_conf-IsRendering tuned

abbrev tuned_conf : String
tuned_conf =
    "[options]\naddons_path = /mnt/odoo/addons\ndb_host = db\ndb_name = shop\ndb_port = 5432\ndb_sslmode = require\ndb_user = odoo\nlist_db = False\nproxy_mode = False\nworkers = 4\n"

tuned_test : render_odoo_conf tuned ≡ inr tuned_conf
unfolding render_odoo_conf signed decimal
tuned_test = refl

render_odoo_conf-unblocked_example :
    (keys : List String) × IsConf tuned tuned_conf keys
    × ((key : String) → operator_key key ≡ true → is_in key keys ≡ false)
render_odoo_conf-unblocked_example = render_odoo_conf-unblocked tuned tuned_conf tuned_test
