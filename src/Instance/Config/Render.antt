-- ===== src/Instance/Config/Render.antt =====
-- What renderOdooConf writes, described without its loops.
use odoo_k8_operator.Base.{
  String, Bool, true, false, ◌&&◌, ◌||◌, not, ◌==◌, if◌then◌else◌, is_some, List, [], ◌∷◌, ◌++◌,
  signed, map, Option, none, ◌≡◌, refl, ap, ◌∙◌, ◌⊎◌, inl, inr, IsRising, lines, Bool-cases, arith,
}
use odoo_k8_operator.Errors.{Error}
use odoo_k8_operator.Api.Instance.{OdooInstanceSpec, PostgresSpec}
use odoo_k8_operator.Instance.Config.{
  Entries, value_of, shown, cron_enabled, port_or_default, sorted_keys, odoo_conf_defaults,
  db_settings, merge_cron, merge_database, write_conf, render_odoo_conf,
}
use odoo_k8_operator.Instance.Config.Entries.{
  first_some, is_in, value_of-append, is_in-sorted_keys, sorted_keys-IsRising, clean, line_of,
  lines-write_conf,
}
use odoo_k8_operator.Instance.Config.Checks.{
  legal_values, all_legal, over, merge_config-cases, merge_settings-cases,
}

-- Where a test holds.
abbrev pub only_if : Bool → Option String → Option String
only_if t o = if t then o else none

-- The values that spec.postgres gives.
abbrev pub database_values : PostgresSpec → Entries
database_values postgres =
    ("db_sslmode", "require")
    ∷ ("db_user", postgres.user)
    ∷ ("db_name", postgres.database)
    ∷ ("db_port", signed (port_or_default postgres.port))
    ∷ ("db_host", postgres.host)
    ∷ []

-- The value that a key is to have: the operator's own settings are before the user's, and those
-- before the defaults.
abbrev pub expected_value : OdooInstanceSpec → String → Option String
expected_value spec key =
    first_some
      (only_if (not (spec.postgres.database == "")) (value_of key (database_values spec.postgres)))
      (first_some (only_if (cron_enabled spec.cron) (value_of key (("max_cron_threads", "0") ∷ [])))
        (first_some (value_of key spec.config) (value_of key odoo_conf_defaults)))

-- What the fields of the resource have to be.
abbrev pub acceptable : OdooInstanceSpec → Bool
acceptable spec =
    all_legal spec.config (sorted_keys spec.config)
    && not (cron_enabled spec.cron && is_some (value_of "max_cron_threads" spec.config))
    && (spec.postgres.database == "" || legal_values (db_settings spec.postgres))

-- A file with one line for each key that is to have a value, in order, and no other line.
pub record IsConf (spec : OdooInstanceSpec) (conf : String) (keys : List String) : Type 0 where
  pub one_to_a_key :
      lines conf
      ≡ "[options]" ∷ (map (λ k. line_of k (shown (expected_value spec k))) keys ++ ("" ∷ []))
  pub rising : IsRising keys
  pub complete : (key : String) → is_in key keys ≡ is_some (expected_value spec key)

abbrev pub IsRendering : OdooInstanceSpec → Error ⊎ String → Type 0
IsRendering spec (inl e) = acceptable spec ≡ false
IsRendering spec (inr conf) =
    (acceptable spec ≡ true) × ((keys : List String) × IsConf spec conf keys)

-- The entries that the file is written from.
record IsMerged (spec : OdooInstanceSpec) (merged : Entries) : Type 0 where
  clean : clean merged ≡ true
  values : (key : String) → value_of key merged ≡ expected_value spec key

lines_of :
    (spec : OdooInstanceSpec) (merged : Entries) (keys : List String)
    → ((key : String) → value_of key merged ≡ expected_value spec key)
    → map (λ k. line_of k (shown (value_of k merged))) keys
      ≡ map (λ k. line_of k (shown (expected_value spec k))) keys
lines_of spec merged keys h = λ i. map (λ k. line_of k (shown (h k i))) keys

write_conf-IsConf :
    (spec : OdooInstanceSpec) (merged : Entries)
    → IsMerged spec merged
    → IsConf spec (write_conf merged) (sorted_keys merged)
write_conf-IsConf spec merged h = record {
  one_to_a_key =
      lines-write_conf merged h.clean
      ∙ ap (λ ls. "[options]" ∷ (ls ++ ("" ∷ [])))
          (lines_of spec merged (sorted_keys merged) h.values);
  rising = sorted_keys-IsRising merged;
  complete = λ key. is_in-sorted_keys key merged ∙ ap is_some (h.values key);
}

-- What the keys of a map change in a lookup is what the map holds.
over-sorted_keys :
    (config below : Entries) (key : String)
    → over config (sorted_keys config) key (value_of key below)
      ≡ first_some (value_of key config) (value_of key below)
over-sorted_keys config below key = rw (is_in-sorted_keys key config) (ground arith)

cron_conflict : OdooInstanceSpec → Bool
cron_conflict spec = cron_enabled spec.cron && is_some (value_of "max_cron_threads" spec.config)

merge_cron-cases :
    (spec : OdooInstanceSpec) (merged : Entries)
    → clean merged ≡ true
    → ((out : Entries) × (merge_cron spec merged ≡ inr out)
        × (cron_conflict spec ≡ false)
        × (clean out ≡ true)
        × ((key : String)
            → value_of key out
              ≡ first_some
                  (only_if (cron_enabled spec.cron) (value_of key (("max_cron_threads", "0") ∷ [])))
                  (value_of key merged)))
      ⊎ ((e : Error) × (merge_cron spec merged ≡ inl e) × (cron_conflict spec ≡ true))
unfolding merge_cron cron_conflict
merge_cron-cases spec merged h = elim (Bool-cases (cron_enabled spec.cron)) [
  | inr off ↦ rw off (inl (merged, refl, refl, h, λ key. refl))
  | inl on ↦ rw on (elim (Bool-cases (is_some (value_of "max_cron_threads" spec.config))) [
    | inl set ↦ rw set (inr (_, refl, refl))
    | inr unset ↦
        rw unset (
          inl
            (_, refl, refl, h, λ key. value_of-append key (("max_cron_threads", "0") ∷ []) merged))
  ])
]

database_fault : PostgresSpec → Bool
database_fault postgres = not (postgres.database == "") && not (legal_values (db_settings postgres))

merge_database-cases :
    (postgres : PostgresSpec) (merged : Entries)
    → clean merged ≡ true
    → ((out : Entries) × (merge_database postgres merged ≡ inr out)
        × (database_fault postgres ≡ false)
        × (clean out ≡ true)
        × ((key : String)
            → value_of key out
              ≡ first_some
                  (only_if
                    (not (postgres.database == ""))
                    (value_of key (database_values postgres)))
                  (value_of key merged)))
      ⊎ ((e : Error) × (merge_database postgres merged ≡ inl e) × (database_fault postgres ≡ true))
unfolding merge_database database_fault db_settings
merge_database-cases postgres merged h = elim (Bool-cases (postgres.database == "")) [
  | inl off ↦ rw off (inl (merged, refl, refl, h, λ key. refl))
  | inr on ↦ rw on (elim (merge_settings-cases (db_settings postgres) merged h refl) [
    | inr (e, is, bad) ↦ inr (e, is, rw bad refl)
    | inl (is, good, c) ↦
        inl (_, is, rw good refl, c, λ key. value_of-append key (database_values postgres) merged)
  ])
]

-- The two loops and the cron setting, one after the other.
values_of_merged :
    (spec : OdooInstanceSpec) (user cron merged : Entries)
    → ((key : String)
        → value_of key user
          ≡ over spec.config (sorted_keys spec.config) key (value_of key odoo_conf_defaults))
    → ((key : String)
        → value_of key cron
          ≡ first_some
              (only_if (cron_enabled spec.cron) (value_of key (("max_cron_threads", "0") ∷ [])))
              (value_of key user))
    → ((key : String)
        → value_of key merged
          ≡ first_some
              (only_if
                (not (spec.postgres.database == ""))
                (value_of key (database_values spec.postgres)))
              (value_of key cron))
    → (key : String) → value_of key merged ≡ expected_value spec key
values_of_merged spec user cron merged h k l key =
    l key
    ∙ ap
        (first_some (
          only_if (not (spec.postgres.database == ""))
            (value_of key (database_values spec.postgres))))
        (k key
          ∙ ap
              (first_some
                (only_if (cron_enabled spec.cron) (value_of key (("max_cron_threads", "0") ∷ []))))
              (h key ∙ over-sorted_keys spec.config odoo_conf_defaults key))

-- An instance's odoo.conf is written exactly when its fields are acceptable: no key of spec.config
-- is blocked, empty or holds one of "=[]" or a line end, no value holds a line end, the cron key is
-- left to the operator where it owns it, and the database settings hold no line end. The file then
-- has, after its header, one line for each key that is to have a value, in rising order, and no
-- other line: the database settings win over the cron setting, that over spec.config, and that over
-- the defaults.
pub render_odoo_conf-IsRendering :
    (spec : OdooInstanceSpec) → IsRendering spec (render_odoo_conf spec)
unfolding render_odoo_conf cron_conflict database_fault
render_odoo_conf-IsRendering spec =
    elim (merge_config-cases spec.config (sorted_keys spec.config) odoo_conf_defaults refl) [
      | inr (e, is, bad) ↦ rw is (rw bad refl)
      | inl (user, is, good, c, look) ↦ rw is (elim (merge_cron-cases spec user c) [
        | inr (e, is', bad) ↦ rw is' (ground arith)
        | inl (cron, is', good', c', look') ↦
            rw is' (elim (merge_database-cases spec.postgres cron c') [
              | inr (e, is'', bad) ↦ rw is'' (ground arith)
              | inl (merged, is'', good'', c'', look'') ↦ rw is'' (
                ground arith,
                (
                  sorted_keys merged,
                  write_conf-IsConf spec merged (record {
                    clean = c'';
                    values = values_of_merged spec user cron merged look look' look'';
                  }),
                ),
              )
            ])
      ])
    ]
