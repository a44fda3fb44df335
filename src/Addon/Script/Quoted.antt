-- ===== src/Addon/Script/Quoted.antt =====
-- What a user's values can do to the scripts of an OdooAddon's Jobs: buildSyncScript and
-- buildCleanupScript of internal/controller/odooaddon_sync.go.
use odoo_k8_operator.Base.{String, Bool, true, false, ◌==◌, ◌≡◌}
use odoo_k8_operator.Shell.{all_chars, safe_char}
use odoo_k8_operator.Addon.Spec.{SyncSpec, GitAuthMode}
use odoo_k8_operator.Addon.Script.Frames.{IsWord, folder_of, SingleFrame, FolderFrame, CleanupFrame}

-- A text that a shell takes for one word as it stands, between double quotes too.
pub record IsPlain (s : String) : Type 0 where
  pub filled : (s == "") ≡ false
  pub chars : all_chars safe_char s ≡ true

-- What the values of a spec are in its scripts.
pub record IsQuoted (s : SyncSpec) : Type 0 where
  pub single : (commit : Bool) (auth : GitAuthMode) → SingleFrame commit auth
  pub folder : (commit : Bool) (auth : GitAuthMode) → FolderFrame commit auth
  pub cleanup : CleanupFrame
  -- What stands unquoted or between double quotes.
  pub source : IsWord (folder_of s.addon_path) (folder_of s.addon_path)
  pub source_plain : IsPlain (folder_of s.addon_path)
  pub module_plain : IsPlain s.module_name
