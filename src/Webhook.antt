-- ===== src/Webhook.antt =====
-- api/v1/odooaddon_webhook.go: what the admission webhook lets an OdooAddon be, and how that stands to
-- the checks of the reconciler.
use odoo_k8_operator.Base.{
  String, Bool, true, false, ◌&&◌, ◌||◌, not, ◌==◌, ◌⧺◌, if◌then◌else◌, List, [], ◌∷◌, any, Option,
  none, some, ◌≡◌, ◌↔◌, refl, arith, quote, starts_with,
}
use odoo_k8_operator.Errors.{Error, text}
use odoo_k8_operator.Api.{OdooAddon}
use odoo_k8_operator.Shell.{all_chars}
use odoo_k8_operator.Conditions.Addon.{contains}
use odoo_k8_operator.Addon.Spec.{
  UrlUser, resolved, SyncSpec, git_ref_char, validate_git_url, validate_git_ref, resolve_sync_spec,
  defaulted, allowed_scheme, default_git_ref,
}
use odoo_k8_operator.Addon.Spec.Laws.{resolve_sync_spec-accepts}

abbrev pub allowed_schemes : List String
allowed_schemes = "https://" ∷ "http://" ∷ "git@" ∷ "ssh://" ∷ []

-- The check of a gitRef
check_git_ref : String → Option Error
unfolding all_chars
check_git_ref ref =
    if contains ref ".." || starts_with ref "-"
    then some (text ("invalid gitRef " ⧺ quote ref ⧺ ": must not contain '..' or start with '-'"))
    else if not (not (ref == "") && all_chars git_ref_char ref)
    then some (
        text (
          "gitRef "
          ⧺ quote ref
          ⧺ " contains disallowed characters; only alphanumeric, '.', '_', '-', '/' allowed"))
    else none

-- The check of the instance's namespace
check_namespace : OdooAddon → Option Error
check_namespace addon =
    let ns = addon.spec.instance_ref.namespace in
    if not (ns == "") && not (ns == addon.meta.namespace)
    then some (
        text (
          "cross-namespace instanceRef is not permitted: instanceRef.namespace "
          ⧺ quote ns
          ⧺ " must equal addon namespace "
          ⧺ quote addon.meta.namespace))
    else none

after_ref : OdooAddon → Option Error → Option Error
unfolding check_namespace
after_ref addon (some e) = some e
after_ref addon none = check_namespace addon

-- validateOdooAddonSpec
unfoldable pub validate_odoo_addon_spec : OdooAddon → Option Error
unfolding check_git_ref after_ref
validate_odoo_addon_spec addon =
    if not (any (λ prefix. starts_with addon.spec.git_url prefix) allowed_schemes)
    then some (
        text (
          "gitUrl scheme not allowed: "
          ⧺ quote addon.spec.git_url
          ⧺ "; must start with one of: https://, http://, git@, ssh://"))
    else after_ref addon
        (if not (addon.spec.git_ref == "") then check_git_ref addon.spec.git_ref else none)

-- The instance is in the addon's namespace.
abbrev pub same_namespace : OdooAddon → Bool
same_namespace addon =
    (addon.spec.instance_ref.namespace == "")
    || (addon.spec.instance_ref.namespace == addon.meta.namespace)

-- The webhook is no stricter than the reconciler: it admits every addon whose sync spec resolves and
-- whose instance is in its namespace.
pub validate_odoo_addon_spec-admits :
    (parse : String → Option UrlUser) (addon : OdooAddon) (s : SyncSpec)
    → resolve_sync_spec parse addon ≡ resolved s
    → same_namespace addon ≡ true
    → validate_odoo_addon_spec addon ≡ none
unfolding validate_odoo_addon_spec check_git_ref after_ref check_namespace validate_git_ref
    validate_git_url defaulted
validate_odoo_addon_spec-admits parse addon s h n =
    let (url, ref) = resolve_sync_spec-accepts parse addon s h in ground (arith, url, ref)

default_ref_valid : validate_git_ref default_git_ref ≡ none
unfolding validate_git_ref all_chars
default_ref_valid = refl

valid_if_valid :
    (b : Bool) (ref : String)
    → (b ≡ false → validate_git_ref ref ≡ none)
    → validate_git_ref (if b then default_git_ref else ref) ≡ none
valid_if_valid true ref f = default_ref_valid
valid_if_valid false ref f = f refl

valid_of_valid :
    (b : Bool) (ref : String)
    → validate_git_ref (if b then default_git_ref else ref) ≡ none
    → b ≡ false
    → validate_git_ref ref ≡ none
valid_of_valid true ref h e = ground arith
valid_of_valid false ref h e = h

-- The webhook admits an addon exactly if its URL has a scheme that the reconciler takes, its ref, or
-- the default one, passes the reconciler's check, and its instance is in its namespace.
pub validate_odoo_addon_spec_iff :
    (addon : OdooAddon)
    → (validate_odoo_addon_spec addon ≡ none) ↔ (
        (allowed_scheme addon.spec.git_url ≡ true)
        × (validate_git_ref (defaulted addon).git_ref ≡ none)
        × (same_namespace addon ≡ true))
unfolding validate_odoo_addon_spec check_git_ref after_ref check_namespace validate_git_ref
    allowed_scheme defaulted
validate_odoo_addon_spec_iff addon = (
  λ h. (
    ground arith,
    valid_if_valid (addon.spec.git_ref == "") addon.spec.git_ref (λ e. ground arith),
    ground arith,
  ),
  λ (a, r, n). ground (arith, a, n, valid_of_valid (addon.spec.git_ref == "") addon.spec.git_ref r),
)
