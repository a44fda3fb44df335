-- ===== src/Addon/Spec/Says.antt =====
-- A spec that is refused is refused with a text, so that its error is never taken for none.
use odoo_k8_operator.Base.{
  ◌<◌, String, Bool, true, false, ◌==◌, ◌⧺◌, Option, none, some, ◌≡◌, inl, inr, ap, Bool-cases,
  arith, refl, eq_iff, len, len-append, subst, quote, starts_with, not, ◌||◌, if◌then◌else◌,
}
use odoo_k8_operator.Errors.{Error, text, wrap, error_text}
use odoo_k8_operator.Api.{OdooAddon, LocalSecretRef}
use odoo_k8_operator.Addon.Spec.{
  SyncSpec, UrlUser, Resolved, refused_spec, resolve_sync_spec, validate_path_segment,
  validate_module_name, validate_git_ref, validate_git_url, validate_addon_path, Auth, GitAuthMode,
  auth_none, auth_ssh, auth_https_token, auth_mode, check_user, user, no_user, unless_error,
  with_auth, resolve_git_auth, defaulted,
}

append-not_empty : (a b : String) → 0 < len a → ((a ⧺ b) == "") ≡ false
append-not_empty a b h = elim (Bool-cases ((a ⧺ b) == "")) [
  | inl e ↦ ground (arith, len-append a b, ap len ((eq_iff (a ⧺ b) "").0 e))
  | inr e ↦ e
]

record Says (e : Error) : Type 0 where
  says : (error_text e == "") ≡ false

-- What a check returns says something.
record SaysIf (x : Option Error) : Type 0 where
  says : (e : Error) → x ≡ some e → Says e

record SaysIfRefused (x : Resolved) : Type 0 where
  says : (e : Error) → x ≡ refused_spec e → Says e

text-Says : (a b : String) → 0 < len a → Says (text (a ⧺ b))
unfolding error_text
text-Says a b h = record { says = append-not_empty a b h }

wrap-Says : (a : String) (e : Error) → 0 < len a → Says (wrap a e)
unfolding error_text
wrap-Says a e h = record { says = append-not_empty a (error_text e) h }

plain-Says : (t : String) → (t == "") ≡ false → Says (text t)
unfolding error_text
plain-Says t h = record { says = h }

some-injective : {a b : Error} → some a ≡ some b → a ≡ b
some-injective h = ground arith

refused-injective : {a b : Error} → refused_spec a ≡ refused_spec b → a ≡ b
refused-injective h = ground arith

some-SaysIf : (e : Error) → Says e → SaysIf (some e)
some-SaysIf e s = record { says = λ f h. subst Says (some-injective h) s }

none-SaysIf : SaysIf none
none-SaysIf = record { says = λ f h. ground arith }

if-SaysIf : (b : Bool) (x y : Option Error) → SaysIf x → SaysIf y → SaysIf (if b then x else y)
if-SaysIf true x y p q = p
if-SaysIf false x y p q = q

unless_error-SaysIfRefused :
    (f : Error → Error) (x : Option Error) (rest : Resolved)
    → ((e : Error) → Says e → Says (f e))
    → SaysIf x
    → SaysIfRefused rest
    → SaysIfRefused (unless_error f x rest)
unfolding unless_error
unless_error-SaysIfRefused f none rest w p q = q
unless_error-SaysIfRefused f (some x) rest w p q = record {
  says = λ e h. subst Says (refused-injective h) (w x (p.says x refl));
}

check_user-SaysIf : (raw : String) (u : Option UrlUser) → SaysIf (check_user raw u)
unfolding check_user
check_user-SaysIf raw none = some-SaysIf _ (plain-Says "gitUrl is not a valid URL" refl)
check_user-SaysIf raw (some no_user) = none-SaysIf
check_user-SaysIf raw (some (user p)) =
    if-SaysIf (not (starts_with raw "ssh://") || p) _ _
      (some-SaysIf _
        (plain-Says "gitUrl must not embed credentials; put them in gitSecretRef instead" refl))
      none-SaysIf

validate_git_url-SaysIf :
    (parse : String → Option UrlUser) (raw : String) → SaysIf (validate_git_url parse raw)
unfolding validate_git_url
validate_git_url-SaysIf parse raw =
    if-SaysIf _ _ _ (some-SaysIf _ (plain-Says "gitUrl scheme not allowed" refl))
      (if-SaysIf _ _ _ none-SaysIf (check_user-SaysIf raw (parse raw)))

validate_git_ref-SaysIf : (ref : String) → SaysIf (validate_git_ref ref)
unfolding validate_git_ref
validate_git_ref-SaysIf ref =
    if-SaysIf _ _ _ (some-SaysIf _ (text-Says "invalid gitRef: " (quote ref) (ground arith))) (
      if-SaysIf _ _ _
        (some-SaysIf _
          (text-Says "gitRef contains disallowed characters: " (quote ref) (ground arith)))
        none-SaysIf)

validate_path_segment-SaysIf : (name : String) → SaysIf (validate_path_segment name)
unfolding validate_path_segment
validate_path_segment-SaysIf name =
    if-SaysIf _ _ _ (some-SaysIf _ (text-Says "invalid path segment: " (quote name) (ground arith)))
      (if-SaysIf _ _ _
        (some-SaysIf _
          (text-Says "path segment contains disallowed characters: " (quote name) (ground arith)))
        none-SaysIf)

validate_module_name-SaysIf : (name : String) → SaysIf (validate_module_name name)
unfolding validate_module_name
validate_module_name-SaysIf name =
    if-SaysIf _ _ _
      (some-SaysIf _ (text-Says "moduleName must not start with '.': " (quote name) (ground arith)))
      (validate_path_segment-SaysIf name)

validate_addon_path-SaysIf : (path : String) → SaysIf (validate_addon_path path)
unfolding validate_addon_path
validate_addon_path-SaysIf path = if-SaysIf _ _ _ (validate_path_segment-SaysIf path) none-SaysIf

refused-SaysIfRefused : (e : Error) → Says e → SaysIfRefused (refused_spec e)
refused-SaysIfRefused e s = record { says = λ f h. subst Says (refused-injective h) s }

with_auth-if :
    (b : Bool) (s : SyncSpec) (secret : Option LocalSecretRef) (x y : Auth)
    → SaysIfRefused (with_auth s secret x)
    → SaysIfRefused (with_auth s secret y)
    → SaysIfRefused (with_auth s secret (if b then x else y))
with_auth-if true s secret x y p q = p
with_auth-if false s secret x y p q = q

mode-SaysIfRefused :
    (s : SyncSpec) (secret : Option LocalSecretRef) (m : GitAuthMode)
    → SaysIfRefused (with_auth s secret (auth_mode m))
unfolding with_auth
mode-SaysIfRefused s secret m = record { says = λ e h. ground arith }

with_auth-SaysIfRefused :
    (s : SyncSpec) (url : String) (secret : Option LocalSecretRef)
    → SaysIfRefused (with_auth s secret (resolve_git_auth url secret))
unfolding with_auth resolve_git_auth
with_auth-SaysIfRefused s url none = mode-SaysIfRefused s none auth_none
with_auth-SaysIfRefused s url (some x) =
    with_auth-if (x.name == "") s (some x) _ _
      (refused-SaysIfRefused _ (plain-Says "gitSecretRef.name must not be empty" refl))
      (with_auth-if (starts_with url "ssh://" || starts_with url "git@") s (some x) _ _
        (mode-SaysIfRefused s (some x) auth_ssh)
        (with_auth-if (starts_with url "http://") s (some x) _ _
          (refused-SaysIfRefused _
            (plain-Says "refusing to send git credentials over plain http; use https" refl))
          (mode-SaysIfRefused s (some x) auth_https_token)))

-- The error that refuses a spec has a text.
pub refused_spec-says :
    (parse : String → Option UrlUser) (addon : OdooAddon) (e : Error)
    → resolve_sync_spec parse addon ≡ refused_spec e
    → (error_text e == "") ≡ false
unfolding resolve_sync_spec
refused_spec-says parse addon e h =
    let d = defaulted addon in
    let w = λ (t : String) (p : 0 < len t) (x : Error) (s : Says x). wrap-Says t x p in
    let all : SaysIfRefused (resolve_sync_spec parse addon) =
      unless_error-SaysIfRefused (λ x. x) _ _ (λ x s. s) (validate_git_url-SaysIf parse d.git_url)
        (unless_error-SaysIfRefused (λ x. x) _ _ (λ x s. s) (validate_git_ref-SaysIf d.git_ref)
          (unless_error-SaysIfRefused (wrap "invalid addon name: ") _ _ (w _ (ground arith))
            (validate_path_segment-SaysIf d.addon_name)
            (unless_error-SaysIfRefused (wrap "invalid moduleName: ") _ _ (w _ (ground arith))
              (validate_module_name-SaysIf d.module_name)
              (unless_error-SaysIfRefused (wrap "invalid addonPath: ") _ _ (w _ (ground arith))
                (validate_addon_path-SaysIf d.addon_path)
                (with_auth-SaysIfRefused d d.git_url addon.spec.git_secret_ref))))) in
    (all.says e h).says
