-- ===== src/Upgrade.antt =====
-- internal/controller/odooupgrade_job.go and upgradeValidateSpec of odooupgrade_controller.go: what
-- is computed from an OdooUpgrade and its instance.
pub mod Job
pub mod Status
pub mod Reconcile
pub mod Lifecycle
pub mod Progress
use odoo_k8_operator.Base.{
  ℤ, pos, String, Bool, ◌&&◌, ◌||◌, not, ◌⧺◌, ◌==◌, if◌then◌else◌, List, [], ◌∷◌, ◌++◌, Option,
  none, some, length, ltb, any, join, quote, ◌=ℕ◌,
}
use odoo_k8_operator.Errors.{Error, text}
use odoo_k8_operator.Api.{OdooUpgrade}
use odoo_k8_operator.Api.Instance.{OdooInstance, OdooInstanceSpec}

-- upgradeValidateSpec
unfoldable pub upgrade_validate_spec : OdooUpgrade → Option Error
upgrade_validate_spec up =
    let ns = up.spec.instance_ref.namespace in
    if up.spec.instance_ref.name == ""
    then some (text "instanceRef.name is required")
    else if not (ns == "") && not (ns == up.meta.namespace)
    then some (
        text (
          "instanceRef.namespace "
          ⧺ quote ns
          ⧺ " must be empty or the upgrade's namespace "
          ⧺ quote up.meta.namespace))
    else if any (λ m. m == "all") up.spec.modules && ltb 1 (length up.spec.modules)
    then some (text ("modules: " ⧺ quote "all" ⧺ " must be the only entry when used"))
    else if not (up.spec.admin_user_password_secret == "") && (length up.spec.install_modules =ℕ 0)
    then some (text "adminUserPasswordSecret requires installModules")
    else none

-- upgradeDatabase
unfoldable pub upgrade_database : OdooUpgrade → OdooInstance → String
upgrade_database up inst =
    if not (up.spec.database == "") then up.spec.database else inst.spec.postgres.database

abbrev pub upgrade_default_timeout : ℤ
upgrade_default_timeout = pos 1800

-- upgradeTimeout
unfoldable pub upgrade_timeout : OdooUpgrade → ℤ
upgrade_timeout up = elim up.spec.timeout_seconds [ some t ↦ t | none ↦ upgrade_default_timeout ]

abbrev pub read_write_once : String
read_write_once = "ReadWriteOnce"

abbrev pub read_write_many : String
read_write_many = "ReadWriteMany"

-- upgradeAccessMode
unfoldable pub upgrade_access_mode : String → String
upgrade_access_mode mode = if mode == "" then read_write_once else mode

-- upgradeNeedsNodePin
unfoldable pub upgrade_needs_node_pin : OdooInstanceSpec → Bool
unfolding upgrade_access_mode
upgrade_needs_node_pin spec =
    not (upgrade_access_mode spec.addons.access_mode == read_write_many)
    || not (upgrade_access_mode spec.data_volume.access_mode == read_write_many)

-- upgradeImage
unfoldable pub upgrade_image : OdooInstanceSpec → String
upgrade_image spec = if spec.image == "" then "odoo:19.0" else spec.image

-- upgradeArgs
unfoldable pub upgrade_args : String → List String → List String → Bool → List String
upgrade_args database modules install_modules with_demo =
    ("--config" ∷ "/etc/odoo/odoo.conf" ∷ "-d" ∷ database ∷ [])
    ++ ((if ltb 0 (length modules) then "-u" ∷ join "," modules ∷ [] else [])
        ++ ((if ltb 0 (length install_modules)
              then "-i"
                ∷ join "," install_modules
                ∷ (if not with_demo then "--without-demo=True" ∷ [] else [])
              else [])
            ++ ("--stop-after-init" ∷ "--no-http" ∷ [])))
