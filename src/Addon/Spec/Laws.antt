-- ===== src/Addon/Spec/Laws.antt =====
-- What a resolved sync spec is safe for.
use odoo_k8_operator.Base.{
  String, true, false, ◌==◌, Option, none, some, ◌≡◌, ◌≢◌, ◌⊎◌, inl, inr, arith, refl, starts_with,
  Bool-cases, ◌∙◌, ap,
}
use odoo_k8_operator.Shell.{all_chars, safe_char, sh_quote}
use odoo_k8_operator.Conditions.Addon.{contains}
use odoo_k8_operator.Errors.{Error}
use odoo_k8_operator.Api.{OdooAddon, LocalSecretRef}
use odoo_k8_operator.Addon.Spec.{
  SyncSpec, UrlUser, Resolved, resolved, resolve_sync_spec, validate_path_segment,
  validate_module_name, validate_git_ref, validate_git_url, validate_addon_path, path_char,
  git_ref_char, Auth, auth_https_token, auth_mode, auth_refused, defaulted, unless_error, with_auth,
  user, resolve_git_auth,
}

pub record IsSafeSegment (name : String) : Type 0 where
  pub not_empty : (name == "") ≡ false
  pub no_dots : contains name ".." ≡ false
  pub relative : starts_with name "/" ≡ false
  pub plain : all_chars path_char name ≡ true

pub validate_path_segment-IsSafeSegment :
    (name : String) → validate_path_segment name ≡ none → IsSafeSegment name
unfolding validate_path_segment
validate_path_segment-IsSafeSegment name h = record {
  not_empty = ground arith;
  no_dots = ground arith;
  relative = ground arith;
  plain = ground arith;
}

pub path_char-safe : (s : String) → all_chars path_char s ≡ true → all_chars safe_char s ≡ true
unfolding all_chars
path_char-safe String.[] h = refl
path_char-safe (String.◌∷◌ c s) h = ground (arith, path_char-safe s)

-- A safe segment stands in a script as it is.
sh_quote-IsSafeSegment : (s : String) → IsSafeSegment s → sh_quote s ≡ s
unfolding sh_quote
sh_quote-IsSafeSegment s h = ground (arith, h.not_empty, path_char-safe s h.plain)

-- What a resolved spec promises of every value that goes into the script.
pub record IsSafe (parse : String → Option UrlUser) (s : SyncSpec) : Type 0 where
  pub addon_name : IsSafeSegment s.addon_name
  pub module_name : IsSafeSegment s.module_name
  pub not_hidden : starts_with s.module_name "." ≡ false
  pub addon_path : ((s.addon_path == "") ≡ true) ⊎ IsSafeSegment s.addon_path
  pub git_ref_option : starts_with s.git_ref "-" ≡ false
  pub git_ref_plain : all_chars git_ref_char s.git_ref ≡ true
  -- A URL that url.Parse reads carries no password, and a user only over ssh.
  pub no_password : starts_with s.git_url "git@" ≡ false → parse s.git_url ≢ some (user true)
  -- A token goes only over https.
  pub token_https : s.auth ≡ auth_https_token → starts_with s.git_url "https://" ≡ true

-- What each check of resolveSyncSpec found.
record Checked (parse : String → Option UrlUser) (addon : OdooAddon) (s : SyncSpec) : Type 0 where
  of_url : validate_git_url parse s.git_url ≡ none
  of_ref : validate_git_ref s.git_ref ≡ none
  of_name : validate_path_segment s.addon_name ≡ none
  of_module : validate_module_name s.module_name ≡ none
  of_path : validate_addon_path s.addon_path ≡ none
  of_auth : resolve_git_auth s.git_url addon.spec.git_secret_ref ≡ auth_mode s.auth

unless_error-resolved :
    (f : Error → Error) (e : Option Error) (rest : Resolved) (s : SyncSpec)
    → unless_error f e rest ≡ resolved s
    → (e ≡ none) × (rest ≡ resolved s)
unfolding unless_error
unless_error-resolved f none rest s h = (refl, h)
unless_error-resolved f (some e) rest s h = ground arith

with_auth-resolved :
    (d s : SyncSpec) (secret : Option LocalSecretRef) (a : Auth)
    → with_auth d secret a ≡ resolved s
    → (a ≡ auth_mode s.auth) × (s ≡ record d { auth = s.auth; secret_name = s.secret_name })
unfolding with_auth
with_auth-resolved d s secret (auth_refused e) h = ground arith
with_auth-resolved d s secret (auth_mode m) h = (ground arith, ground arith)

resolve_sync_spec-Checked :
    (parse : String → Option UrlUser) (addon : OdooAddon) (s : SyncSpec)
    → resolve_sync_spec parse addon ≡ resolved s
    → Checked parse addon s
unfolding resolve_sync_spec
resolve_sync_spec-Checked parse addon s h =
    let d = defaulted addon in
    let (u, h1) = unless_error-resolved _ _ _ s h in
    let (r, h2) = unless_error-resolved _ _ _ s h1 in
    let (n, h3) = unless_error-resolved _ _ _ s h2 in
    let (m, h4) = unless_error-resolved _ _ _ s h3 in
    let (p, h5) = unless_error-resolved _ _ _ s h4 in
    let (a, e) =
      with_auth-resolved d s addon.spec.git_secret_ref
        (resolve_git_auth d.git_url addon.spec.git_secret_ref) h5 in
    record {
      of_url = ap (λ (x : SyncSpec). validate_git_url parse x.git_url) e ∙ u;
      of_ref = ap (λ (x : SyncSpec). validate_git_ref x.git_ref) e ∙ r;
      of_name = ap (λ (x : SyncSpec). validate_path_segment x.addon_name) e ∙ n;
      of_module = ap (λ (x : SyncSpec). validate_module_name x.module_name) e ∙ m;
      of_path = ap (λ (x : SyncSpec). validate_addon_path x.addon_path) e ∙ p;
      of_auth = ap (λ (x : SyncSpec). resolve_git_auth x.git_url addon.spec.git_secret_ref) e ∙ a;
    }

-- A spec that resolves passed the checks of its URL and of its ref.
pub resolve_sync_spec-accepts :
    (parse : String → Option UrlUser) (addon : OdooAddon) (s : SyncSpec)
    → resolve_sync_spec parse addon ≡ resolved s
    → (validate_git_url parse addon.spec.git_url ≡ none)
      × (validate_git_ref (defaulted addon).git_ref ≡ none)
unfolding resolve_sync_spec defaulted
resolve_sync_spec-accepts parse addon s h =
    let (u, h1) = unless_error-resolved _ _ _ s h in
    let (r, h2) = unless_error-resolved _ _ _ s h1 in (u, r)

resolve_git_auth-token :
    (parse : String → Option UrlUser) (url : String) (secret : Option LocalSecretRef)
    → resolve_git_auth url secret ≡ auth_mode auth_https_token
    → validate_git_url parse url ≡ none
    → starts_with url "https://" ≡ true
unfolding resolve_git_auth validate_git_url
resolve_git_auth-token parse url none h v = ground arith
resolve_git_auth-token parse url (some s) h v = ground arith

-- Whatever name, path, ref and URL an addon's user writes, a spec that resolves is safe to put into
-- the sync script: its names and its path are relative, are not empty (the path may be), hold no
-- "..", and consist of letters, digits, '.', '_' and '-'; its ref is no option; its URL carries no
-- password that url.Parse sees; and a token is sent over https alone.
pub resolve_sync_spec-IsSafe :
    (parse : String → Option UrlUser) (addon : OdooAddon) (s : SyncSpec)
    → resolve_sync_spec parse addon ≡ resolved s
    → IsSafe parse s
unfolding validate_module_name validate_addon_path validate_git_ref validate_git_url
resolve_sync_spec-IsSafe parse addon s h =
    let c = resolve_sync_spec-Checked parse addon s h in
    record {
      addon_name = validate_path_segment-IsSafeSegment s.addon_name c.of_name;
      module_name = validate_path_segment-IsSafeSegment s.module_name (ground (arith, c.of_module));
      not_hidden = ground (arith, c.of_module);
      addon_path = elim (Bool-cases (s.addon_path == "")) [
        | inl e ↦ inl e
        | inr e ↦ inr (validate_path_segment-IsSafeSegment s.addon_path (ground (arith, c.of_path)))
      ];
      git_ref_option = ground (arith, c.of_ref);
      git_ref_plain = ground (arith, c.of_ref);
      no_password = λ scp e. ground (arith, c.of_url);
      token_https =
          λ t. resolve_git_auth-token parse s.git_url _ (c.of_auth ∙ ap auth_mode t) c.of_url;
    }
