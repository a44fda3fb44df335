-- ===== src/Instance/Config/Blocked.antt =====
-- The keys that spec.config may not set are in no line of odoo.conf.
use odoo_k8_operator.Base.{
  String, Bool, true, false, not, ◌==◌, is_some, List, [], ◌∷◌, none, ◌≡◌, refl, ap, ◌∙◌, subst,
  inl, inr, Bool-cases, arith, eq_iff,
}
use odoo_k8_operator.Api.Instance.{OdooInstanceSpec, PostgresSpec}
use odoo_k8_operator.Instance.Config.{
  Entries, value_of, cron_enabled, sorted_keys, odoo_conf_defaults, render_odoo_conf,
}
use odoo_k8_operator.Instance.Config.Entries.{is_in, is_in-sorted_keys}
use odoo_k8_operator.Instance.Config.Checks.{operator_key, all_legal}
use odoo_k8_operator.Instance.Config.Render.{
  only_if, database_values, expected_value, acceptable, IsConf, IsRendering,
  render_odoo_conf-IsRendering,
}

all_legal-unblocked :
    (config : Entries) (keys : List String) (key : String)
    → all_legal config keys ≡ true
    → is_in key keys ≡ true
    → operator_key key ≡ false
all_legal-unblocked config [] key h k = cc
all_legal-unblocked config (x ∷ xs) key h k = elim (Bool-cases (x == key)) [
  | inl e ↦ subst (λ t. operator_key t ≡ false) ((eq_iff x key).0 e) (ground arith)
  | inr e ↦ all_legal-unblocked config xs key (ground arith) (ground arith)
]

config-unblocked :
    (config : Entries) (key : String)
    → all_legal config (sorted_keys config) ≡ true
    → operator_key key ≡ true
    → value_of key config ≡ none
config-unblocked config key h k =
    ground
      (arith, is_in-sorted_keys key config, all_legal-unblocked config (sorted_keys config) key h)

own-unblocked :
    (postgres : PostgresSpec) (key : String)
    → operator_key key ≡ true
    → (value_of key (database_values postgres) ≡ none)
      × (value_of key (("max_cron_threads", "0") ∷ []) ≡ none)
      × (value_of key odoo_conf_defaults ≡ none)
unfolding odoo_conf_defaults
own-unblocked postgres key h = elim (Bool-cases (key == "admin_passwd")) [
  | inl e ↦ rw ((eq_iff key "admin_passwd").0 e) (refl, refl, refl)
  | inr e ↦ elim (Bool-cases (key == "db_password")) [
    | inl f ↦ rw ((eq_iff key "db_password").0 f) (refl, refl, refl)
    | inr f ↦ rw ((eq_iff key "dbfilter").0 (ground arith)) (refl, refl, refl)
  ]
]

only_if-none : (t : Bool) → only_if t none ≡ none
only_if-none true = refl
only_if-none false = refl

expected_value-unblocked :
    (spec : OdooInstanceSpec) (key : String)
    → acceptable spec ≡ true
    → operator_key key ≡ true
    → expected_value spec key ≡ none
expected_value-unblocked spec key h b =
    let own = own-unblocked spec.postgres key b in
    rw own.0 (
      rw own.1 (
        rw own.2 (
          rw (config-unblocked spec.config key (ground arith) b) (
            rw (only_if-none (not (spec.postgres.database == "")))
              (rw (only_if-none (cron_enabled spec.cron)) refl)))))

-- Where the file is written, no line of it is one of a blocked key: its keys are listed, and none
-- of them is admin_passwd, db_password or dbfilter.
pub render_odoo_conf-unblocked :
    (spec : OdooInstanceSpec) (conf : String)
    → render_odoo_conf spec ≡ inr conf
    → (keys : List String) × IsConf spec conf keys
      × ((key : String) → operator_key key ≡ true → is_in key keys ≡ false)
render_odoo_conf-unblocked spec conf h =
    of_rendering (subst (IsRendering spec) h (render_odoo_conf-IsRendering spec))
  where
    of_rendering :
        IsRendering spec (inr conf)
        → (keys : List String) × IsConf spec conf keys
          × ((key : String) → operator_key key ≡ true → is_in key keys ≡ false)
    of_rendering (good, (keys, is)) =
        (keys, is, λ key b. is.complete key ∙ ap is_some (expected_value-unblocked spec key good b))
