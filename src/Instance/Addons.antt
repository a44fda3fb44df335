-- ===== src/Instance/Addons.antt =====
-- internal/controller/odooinstance_addons.go and odooinstance_hash.go: which addons an instance has,
-- where their modules are mounted, and the fingerprints that are stamped on the pod template. `sha`
-- is the SHA-256 of a text in hexadecimal.
pub mod Order
use odoo_k8_operator.Base.{
  String, Bool, ◌&&◌, ◌||◌, not, ◌⧺◌, ◌==◌, ltb, if◌then◌else◌, List, [], ◌∷◌, ◌++◌, map, keep,
  length, join, sort, compact,
}
use odoo_k8_operator.Api.{OdooAddon}
use odoo_k8_operator.Backup.Validate.{split_slash}

abbrev pub addons_mount_path : String
addons_mount_path = "/mnt/odoo/addons"

-- filterReadyAddons
unfoldable pub filter_ready_addons : List OdooAddon → String → List OdooAddon
filter_ready_addons all instance_name =
    keep (λ a. (a.spec.instance_ref.name == instance_name) && a.status.ready) all

-- addonModules
unfoldable pub addon_modules : OdooAddon → List String
addon_modules addon =
    if ltb 0 (length addon.status.modules)
    then addon.status.modules
    else if not (addon.spec.module_name == "")
    then addon.spec.module_name ∷ []
    else addon.meta.name ∷ []

-- All but the last.
drop_last : List String → List String
drop_last [] = []
drop_last (x ∷ []) = []
drop_last (x ∷ y ∷ ys) = x ∷ drop_last (y ∷ ys)

clean_from : List String → List String → List String
unfolding drop_last
clean_from kept [] = kept
clean_from kept (s ∷ ss) =
    clean_from
      (if s == "" || s == "." then kept else if s == ".." then drop_last kept else kept ++ (s ∷ []))
      ss

-- filepath.Join of a rooted directory and a name: empty and "." segments go, ".." takes one back.
unfoldable pub join_path : String → String → String
unfolding clean_from split_slash join
join_path dir name = "/" ⧺ join "/" (clean_from [] (split_slash (dir ⧺ "/" ⧺ name)))

-- The paths of one addon's modules.
paths_of : OdooAddon → List String
unfolding addon_modules join_path
paths_of addon = map (join_path addons_mount_path) (addon_modules addon)

all_paths : List OdooAddon → List String
unfolding paths_of
all_paths [] = []
all_paths (a ∷ as') = paths_of a ++ all_paths as'

-- addonMountPaths
unfoldable pub addon_mount_paths : List OdooAddon → List String
unfolding all_paths sort compact
addon_mount_paths addons = compact (sort (all_paths addons))

-- An entry of addonRevisions
addon_revision : OdooAddon → String
unfolding sort join
addon_revision addon =
    let rev = addon.meta.name ⧺ "=" ⧺ addon.status.cloned_commit in
    if ltb 0 (length addon.status.modules)
    then rev ⧺ " modules=" ⧺ join "," (sort addon.status.modules)
    else rev

-- addonRevisions
unfoldable pub addon_revisions : List OdooAddon → List String
unfolding addon_revision sort
addon_revisions addons = sort (map addon_revision addons)

-- The data of a Secret: its keys, in some order, and the value of each.
pub record SecretData : Type 0 where
  pub keys : List String
  pub value_of : String → String

module _ (sha : String → String) where
  -- addonsHash
  unfoldable pub addons_hash : List OdooAddon → String
  unfolding addon_revisions join
  addons_hash addons = sha (join "\n" (addon_revisions addons))

  -- configHash
  unfoldable pub config_hash : String → String
  config_hash conf = sha conf

  -- The lines of one Secret, for its keys in the order given; `hex` is hex.EncodeToString. The data
  -- is a map, here from texts to texts.
  secret_text : (String → String) → (String → String) → List String → String
  secret_text hex data_of [] = "---\n"
  secret_text hex data_of (key ∷ keys) =
      key ⧺ "=" ⧺ hex (data_of key) ⧺ "\n" ⧺ secret_text hex data_of keys

  secrets_text : (String → String) → List SecretData → String
  unfolding secret_text sort
  secrets_text hex [] = ""
  secrets_text hex (s ∷ ss) = secret_text hex s.value_of (sort s.keys) ⧺ secrets_text hex ss

  -- secretsHash
  unfoldable pub secrets_hash : (String → String) → List SecretData → String
  unfolding secrets_text
  secrets_hash hex secrets = sha (secrets_text hex secrets)
