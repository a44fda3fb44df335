-- ===== src/Addon/Spec.antt =====
-- internal/controller/odooaddon_sync.go: syncSpec, its validation (validateGitUrl, validateGitRef,
-- validatePathSegment, validateModuleName, resolveGitAuth, resolveSyncSpec), isCommitSHA,
-- canSkipResync and syncSpecHash. The regular expressions are sets of characters with a length.
pub mod Laws
pub mod Says
use Prim.Native.String.{find}
use odoo_k8_operator.Base.{
  ℕ, String, Bool, true, false, ◌&&◌, ◌||◌, not, ◌==◌, ◌⧺◌, ltb, leb, ◌=ℕ◌, len, if◌then◌else◌,
  List, [], ◌∷◌, Option, none, some, quote, length, is_some, starts_with, slice,
}
use odoo_k8_operator.Errors.{Error, text, wrap}
use odoo_k8_operator.Api.{OdooAddon, LocalSecretRef}
use odoo_k8_operator.Phases.{phase_synced}
use odoo_k8_operator.Shell.{all_chars, alphanumeric}
use odoo_k8_operator.Conditions.Addon.{contains}

-- gitAuthMode
pub data GitAuthMode : Type 0 where
  auth_none auth_https_token auth_ssh : GitAuthMode

-- syncSpec
pub record SyncSpec : Type 0 where
  pub git_url : String
  pub git_ref : String
  pub addon_name : String
  pub module_name : String
  pub addon_path : String
  pub single_addon : Bool
  pub secret_name : String
  pub auth : GitAuthMode

-- What url.Parse says of a URL that it accepts: no user, or a user with or without a password.
pub data UrlUser : Type 0 where
  no_user : UrlUser
  user : Bool → UrlUser

abbrev pub default_git_ref : String
default_git_ref = "main"

-- [a-zA-Z0-9._/-]
abbrev pub git_ref_char : ℕ → Bool
git_ref_char c = alphanumeric c || c =ℕ b'.' || c =ℕ b'_' || c =ℕ b'/' || c =ℕ b'-'

-- [a-zA-Z0-9._-]
abbrev pub path_char : ℕ → Bool
path_char c = alphanumeric c || c =ℕ b'.' || c =ℕ b'_' || c =ℕ b'-'

-- [0-9a-f]
abbrev pub hex_char : ℕ → Bool
hex_char c = (leb b'0' c && leb c b'9') || (leb b'a' c && leb c b'f')

-- isCommitSHA
unfoldable pub is_commit_sha : String → Bool
unfolding all_chars
is_commit_sha ref = (len ref =ℕ 40) && all_chars hex_char ref

-- canSkipResync
unfoldable pub can_skip_resync : OdooAddon → Bool
unfolding is_commit_sha
can_skip_resync addon =
    let ref = if addon.spec.git_ref == "" then default_git_ref else addon.spec.git_ref in
    is_commit_sha ref
    && (addon.status.phase == phase_synced)
    && (addon.status.cloned_commit == ref)
    && ltb 0 (length addon.status.modules)

unfoldable pub allowed_scheme : String → Bool
allowed_scheme raw =
    starts_with raw "https://"
    || starts_with raw "http://"
    || starts_with raw "ssh://"
    || starts_with raw "git@"

check_user : String → Option UrlUser → Option Error
check_user raw none = some (text "gitUrl is not a valid URL")
check_user raw (some no_user) = none
check_user raw (some (user has_password)) =
    if not (starts_with raw "ssh://") || has_password
    then some (text "gitUrl must not embed credentials; put them in gitSecretRef instead")
    else none

-- validateGitUrl; `parse` is url.Parse.
unfoldable pub validate_git_url : (String → Option UrlUser) → String → Option Error
unfolding allowed_scheme check_user
validate_git_url parse raw =
    if not (allowed_scheme raw)
    then some (text "gitUrl scheme not allowed")
    else if starts_with raw "git@"
    then none
    else check_user raw (parse raw)

-- validateGitRef
unfoldable pub validate_git_ref : String → Option Error
unfolding all_chars
validate_git_ref ref =
    if contains ref ".." || starts_with ref "-"
    then some (text ("invalid gitRef: " ⧺ quote ref))
    else if not (not (ref == "") && all_chars git_ref_char ref)
    then some (text ("gitRef contains disallowed characters: " ⧺ quote ref))
    else none

-- validatePathSegment
unfoldable pub validate_path_segment : String → Option Error
unfolding all_chars
validate_path_segment name =
    if (name == "") || contains name ".." || starts_with name "/"
    then some (text ("invalid path segment: " ⧺ quote name))
    else if not (not (name == "") && all_chars path_char name)
    then some (text ("path segment contains disallowed characters: " ⧺ quote name))
    else none

-- validateModuleName
unfoldable pub validate_module_name : String → Option Error
unfolding validate_path_segment
validate_module_name name =
    if starts_with name "."
    then some (text ("moduleName must not start with '.': " ⧺ quote name))
    else validate_path_segment name

pub data Auth : Type 0 where
  auth_refused : Error → Auth
  auth_mode : GitAuthMode → Auth

-- resolveGitAuth
unfoldable pub resolve_git_auth : String → Option LocalSecretRef → Auth
resolve_git_auth git_url none = auth_mode auth_none
resolve_git_auth git_url (some secret) =
    if secret.name == ""
    then auth_refused (text "gitSecretRef.name must not be empty")
    else if starts_with git_url "ssh://" || starts_with git_url "git@"
    then auth_mode auth_ssh
    else if starts_with git_url "http://"
    then auth_refused (text "refusing to send git credentials over plain http; use https")
    else auth_mode auth_https_token

pub data Resolved : Type 0 where
  refused_spec : Error → Resolved
  resolved : SyncSpec → Resolved

secret_ref_name : Option LocalSecretRef → String
secret_ref_name none = ""
secret_ref_name (some secret) = secret.name

with_auth : SyncSpec → Option LocalSecretRef → Auth → Resolved
unfolding secret_ref_name
with_auth s secret (auth_refused e) = refused_spec e
with_auth s secret (auth_mode mode) =
    resolved (record s { auth = mode; secret_name = secret_ref_name secret })

-- Go's chain of `if err := ...; err != nil { return }`.
unless_error : (Error → Error) → Option Error → Resolved → Resolved
unless_error wrapped none rest = rest
unless_error wrapped (some e) rest = refused_spec (wrapped e)

-- The spec with its defaults.
unfoldable pub defaulted : OdooAddon → SyncSpec
defaulted addon = record {
  git_url = addon.spec.git_url;
  git_ref = if addon.spec.git_ref == "" then default_git_ref else addon.spec.git_ref;
  addon_name = addon.meta.name;
  module_name = if addon.spec.module_name == "" then addon.meta.name else addon.spec.module_name;
  addon_path = addon.spec.addon_path;
  single_addon = addon.spec.single_addon;
  secret_name = "";
  auth = auth_none;
}

validate_addon_path : String → Option Error
unfolding validate_path_segment
validate_addon_path path = if not (path == "") then validate_path_segment path else none

-- resolveSyncSpec
unfoldable pub resolve_sync_spec : (String → Option UrlUser) → OdooAddon → Resolved
unfolding defaulted unless_error with_auth validate_git_url validate_git_ref validate_path_segment
    validate_module_name validate_addon_path resolve_git_auth
resolve_sync_spec parse addon =
    let s = defaulted addon in
    unless_error (λ e. e) (validate_git_url parse s.git_url)
      (unless_error (λ e. e) (validate_git_ref s.git_ref)
        (unless_error (wrap "invalid addon name: ") (validate_path_segment s.addon_name) (
          unless_error (wrap "invalid moduleName: ") (validate_module_name s.module_name) (
            unless_error (wrap "invalid addonPath: ") (validate_addon_path s.addon_path) (
              with_auth s addon.spec.git_secret_ref
                (resolve_git_auth s.git_url addon.spec.git_secret_ref))))))

-- syncSpecHash; `digest` is the hexadecimal SHA-256 of the JSON of a list of strings.
unfoldable pub sync_spec_hash : (List String → String) → SyncSpec → String
sync_spec_hash digest s =
    slice
      (digest (
        s.git_url
        ∷ s.git_ref
        ∷ s.addon_path
        ∷ s.module_name
        ∷ (if s.single_addon then "true" else "false")
        ∷ s.secret_name
        ∷ s.addon_name
        ∷ []))
      0 16
