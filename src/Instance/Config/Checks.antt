-- ===== src/Instance/Config/Checks.antt =====
-- What renderOdooConf accepts, as one test, and that its loops take just that.
use odoo_k8_operator.Base.{
  String, Bool, true, false, ◌&&◌, ◌||◌, not, ◌==◌, if◌then◌else◌, List, [], ◌∷◌, all, Option, none,
  some, ◌≡◌, refl, ◌∙◌, ◌⊎◌, inl, inr, one_line, Bool-cases, arith, eq_iff,
}
use odoo_k8_operator.Errors.{Error}
use odoo_k8_operator.Instance.Config.{
  Entries, value_of, shown, contains_any, newline_char, illegal_key_char, blocked_config_key,
  check_conf_value, check_config_entry, merge_config, merge_settings,
}
use odoo_k8_operator.Instance.Config.Entries.{clean, is_in}

abbrev pub legal_value : String → Bool
legal_value value = not (contains_any newline_char value)

-- The keys that the operator keeps to itself.
abbrev pub operator_key : String → Bool
operator_key key = key == "admin_passwd" || key == "db_password" || key == "dbfilter"

-- An entry that spec.config may have.
abbrev pub legal_entry : String → String → Bool
legal_entry key value =
    not (operator_key key)
    && not (key == "")
    && not (contains_any illegal_key_char key)
    && legal_value value

-- No error, and the test holds; or an error, and it does not.
abbrev pub Decides : Option Error → Bool → Type 0
Decides o b = ((o ≡ none) × (b ≡ true)) ⊎ ((e : Error) × (o ≡ some e) × (b ≡ false))

pub check_conf_value-Decides :
    (key value : String) → Decides (check_conf_value key value) (legal_value value)
unfolding check_conf_value
check_conf_value-Decides key value = elim (Bool-cases (contains_any newline_char value)) [
  | inl h ↦ rw h (inr (_, refl, refl))
  | inr h ↦ rw h (inl (refl, refl))
]

pub check_config_entry-Decides :
    (key value : String) → Decides (check_config_entry key value) (legal_entry key value)
unfolding check_config_entry blocked_config_key
check_config_entry-Decides key value = elim (Bool-cases (operator_key key)) [
  | inl h ↦ rw h (inr (_, refl, refl))
  | inr h ↦ rw h (elim (Bool-cases (key == "")) [
    | inl k ↦ rw k (inr (_, refl, refl))
    | inr k ↦ rw k (elim (Bool-cases (contains_any illegal_key_char key)) [
      | inl l ↦ rw l (inr (_, refl, refl))
      | inr l ↦ rw l (check_conf_value-Decides key value)
    ])
  ])
]

one_line-legal_value : (s : String) → legal_value s ≡ true → one_line s ≡ true
one_line-legal_value String.[] h = refl
one_line-legal_value (String.◌∷◌ c s) h = ground (arith, one_line-legal_value s)

one_line-key : (s : String) → contains_any illegal_key_char s ≡ false → one_line s ≡ true
one_line-key String.[] h = refl
one_line-key (String.◌∷◌ c s) h = ground (arith, one_line-key s)

legal_entry-one_line :
    (key value : String) → legal_entry key value ≡ true → (one_line key && one_line value) ≡ true
legal_entry-one_line key value h = ground (arith, one_line-legal_value value, one_line-key key)

-- The entries of spec.config that some keys stand for are all legal.
abbrev pub all_legal : Entries → List String → Bool
all_legal config keys = all (λ k. legal_entry k (shown (value_of k config))) keys

-- What some keys of spec.config change in a lookup.
abbrev pub over : Entries → List String → String → Option String → Option String
over config keys key below = if is_in key keys then some (shown (value_of key config)) else below

over-step :
    (config merged : Entries) (k : String) (ks : List String) (key : String)
    → over config ks key (value_of key ((k, shown (value_of k config)) ∷ merged))
      ≡ over config (k ∷ ks) key (value_of key merged)
over-step config merged k ks key = elim (Bool-cases (k == key)) [
  | inl h ↦ rw h (let same : k ≡ key = (eq_iff k key).0 h in rw same (ground arith))
  | inr h ↦ rw h refl
]

-- The loop over spec.config.
pub merge_config-cases :
    (config : Entries) (keys : List String) (merged : Entries)
    → clean merged ≡ true
    → ((out : Entries) × (merge_config config keys merged ≡ inr out)
        × (all_legal config keys ≡ true)
        × (clean out ≡ true)
        × ((key : String) → value_of key out ≡ over config keys key (value_of key merged)))
      ⊎ ((e : Error) × (merge_config config keys merged ≡ inl e) × (all_legal config keys ≡ false))
unfolding merge_config
merge_config-cases config [] merged h = inl (merged, refl, refl, h, λ key. refl)
merge_config-cases config (k ∷ ks) merged h =
    elim (check_config_entry-Decides k (shown (value_of k config))) [
      | inr (e, is, bad) ↦ inr (e, rw is refl, rw bad refl)
      | inl (is, good) ↦ rw is (
          rw good
            (elim (merge_config-cases config ks ((k, shown (value_of k config)) ∷ merged)
              (ground (arith, h, legal_entry-one_line k (shown (value_of k config)) good))) [
                | inr r ↦ inr r
                | inl (out, is', good', c, look) ↦
                    inl (out, is', good', c, λ key. look key ∙ over-step config merged k ks key)
              ]))
    ]

-- Entries put in front one by one.
abbrev pub push_all : Entries → Entries → Entries
push_all [] merged = merged
push_all (e ∷ rest) merged = push_all rest (e ∷ merged)

abbrev pub legal_values : Entries → Bool
legal_values [] = true
legal_values (e ∷ rest) = legal_value e.1 && legal_values rest

abbrev pub clean_keys : Entries → Bool
clean_keys [] = true
clean_keys (e ∷ rest) = one_line e.0 && clean_keys rest

-- The loop over dbSettings.
pub merge_settings-cases :
    (settings merged : Entries)
    → clean merged ≡ true
    → clean_keys settings ≡ true
    → ((merge_settings settings merged ≡ inr (push_all settings merged))
        × (legal_values settings ≡ true)
        × (clean (push_all settings merged) ≡ true))
      ⊎ ((e : Error) × (merge_settings settings merged ≡ inl e) × (legal_values settings ≡ false))
unfolding merge_settings
merge_settings-cases [] merged h k = inl (refl, refl, h)
merge_settings-cases (s ∷ ss) merged h k = elim (check_conf_value-Decides s.0 s.1) [
  | inr (e, is, bad) ↦ inr (e, rw is refl, rw bad refl)
  | inl (is, good) ↦ rw is (
      rw good (
        merge_settings-cases ss (s ∷ merged) (ground (arith, one_line-legal_value s.1))
          (ground arith)))
]
