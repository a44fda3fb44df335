-- ===== src/Examples/Addon.antt =====
-- An addon whose sync Job has succeeded, and the same addon when it is being deleted.
use odoo_k8_operator.Base.{
  if◌then◌else◌, ℕ, String, true, false, ◌==◌, [], ◌∷◌, Option, none, some, ◌≡◌, ◌↔◌, refl,
}
use odoo_k8_operator.Kube.{got}
use odoo_k8_operator.Api.{OdooAddon}
use odoo_k8_operator.PodLogs.{LogReads}
use odoo_k8_operator.Errors.{text, ok, err}
use odoo_k8_operator.Addon.State.{
  SyncInput, decide_addon_sync, record_success, create_job, annotation_sync_spec_hash,
}
use odoo_k8_operator.Addon.State.Laws.{IsJudged, MayCreate, success_iff, create_iff}
use odoo_k8_operator.Addon.Spec.{
  UrlUser, no_user, defaulted, resolved, resolve_sync_spec, allowed_scheme, validate_git_ref,
}
use odoo_k8_operator.Addon.Spec.Laws.{IsSafe, resolve_sync_spec-IsSafe}
use odoo_k8_operator.Addon.Deletion.{DeletionReads, handle_finalizer}
use odoo_k8_operator.Addon.Deletion.Ends.{ends, may_release, handle_finalizer-ends}
use odoo_k8_operator.Addon.Pass.{SyncTools, SyncReads}
use odoo_k8_operator.Addon.Sync.{reconcile_odoo_addon}
use odoo_k8_operator.Addon.Sync.Allowed.{Fits}
use odoo_k8_operator.Addon.Sync.Passes.{reconcile_odoo_addon-Fits}
use odoo_k8_operator.Webhook.{
  validate_odoo_addon_spec, same_namespace, validate_odoo_addon_spec_iff,
  validate_odoo_addon_spec-admits,
}
use odoo_k8_operator.Addon.Reconcile.{AddonReads, addon_reconcile}
use odoo_k8_operator.Addon.Reconcile.Runs.{Ran, addon_reconcile-Ran}
use odoo_k8_operator.Examples.Samples.{machinery, shop_meta, shop_ref, shop, succeeded_job}

abbrev pub parse : String → Option UrlUser
parse url = some no_user

abbrev pub addon_in : String → Option ℕ → OdooAddon
addon_in phase last = record {
  meta = shop_meta "web" 5;
  spec = record {
    git_url = "https://example.org/web.git";
    git_ref = "";
    git_secret_ref = none;
    addon_path = "";
    single_addon = true;
    module_name = "";
    instance_ref = shop_ref;
    read_only = true;
  };
  status = record {
    ready = false;
    phase = phase;
    cloned_commit = "";
    last_sync_time = last;
    modules = [];
    message = "";
    conditions = [];
  };
}

abbrev pub web : OdooAddon
web = addon_in "Syncing" none

abbrev pub tools : SyncTools
tools = record {
  parse_url = parse;
  digest = λ fields. "0123456789abcdef0123";
  controlled = λ job addon. job.meta.namespace == addon.meta.namespace;
}

-- The log of the later of two pods.
abbrev pub web_logs : LogReads
web_logs = record {
  clientset = true;
  pods = got (
      record { name = "web-sync-a"; created = 50; phase = "Failed"; node_name = "" }
      ∷ record { name = "web-sync-b"; created = 60; phase = "Succeeded"; node_name = "" }
      ∷ []);
  stream = λ pod container.
      if pod == "web-sync-b" then ok "modules: web\n89abcdef\n" else err (text "no log");
}

abbrev web_reads : SyncReads
web_reads = record {
  instance_reply = got shop;
  claim = got "Bound";
  job =
      got (some (succeeded_job "web-sync" ((annotation_sync_spec_hash, "0123456789abcdef") ∷ [])));
  logs = web_logs;
  delete = none;
  image = "alpine/git";
  pods = got [];
  set_owner = none;
  create = none;
  update = none;
  recorder = true;
  now = 100;
}

reconcile_odoo_addon-Fits_example :
    Fits tools web_reads web (reconcile_odoo_addon machinery tools web_reads web)
reconcile_odoo_addon-Fits_example = reconcile_odoo_addon-Fits machinery tools web_reads web

abbrev judged_input : SyncInput
judged_input = record {
  spec_err = "";
  spec_hash = "h";
  job = record {
    exists = true;
    controlled_by_addon = true;
    spec_hash = "h";
    succeeded = true;
    failed = false;
  };
  phase = "Synced";
  last_sync_time = some 90;
  skip_resync = false;
  now = 100;
}

success_iff_example :
    ((decide_addon_sync judged_input).action ≡ record_success)
    ↔ (IsJudged judged_input × (judged_input.job.succeeded ≡ true))
success_iff_example = success_iff judged_input

create_iff_example : ((decide_addon_sync judged_input).action ≡ create_job) ↔ MayCreate judged_input
create_iff_example = create_iff judged_input

pub web_resolved : resolve_sync_spec parse web ≡ resolved (defaulted web)
unfolding resolve_sync_spec defaulted
web_resolved = refl

resolve_sync_spec-IsSafe_example : IsSafe parse (defaulted web)
resolve_sync_spec-IsSafe_example = resolve_sync_spec-IsSafe parse web (defaulted web) web_resolved

validate_odoo_addon_spec_iff_example : (validate_odoo_addon_spec web ≡ none) ↔ (
    (allowed_scheme web.spec.git_url ≡ true)
    × (validate_git_ref (defaulted web).git_ref ≡ none)
    × (same_namespace web ≡ true))
validate_odoo_addon_spec_iff_example = validate_odoo_addon_spec_iff web

validate_odoo_addon_spec-admits_example : validate_odoo_addon_spec web ≡ none
validate_odoo_addon_spec-admits_example =
    validate_odoo_addon_spec-admits parse web (defaulted web) web_resolved refl

-- The sync Job is gone and the cleanup Job has succeeded.
abbrev leaving_reads : DeletionReads
leaving_reads = record {
  has_finalizer = true;
  image = "alpine/git";
  sync_job = got none;
  cleanup_job = got (some (succeeded_job "web-cleanup" []));
  instance_reply = got shop;
  claim = none;
  pods = got [];
  set_owner = none;
  create = none;
  delete_sync = none;
  delete_cleanup = none;
  update = none;
  recorder = true;
  now = 100;
}

leaving_released : (handle_finalizer tools.controlled leaving_reads web).released ≡ true
unfolding handle_finalizer
leaving_released = refl

handle_finalizer-ends_example :
    ends tools.controlled leaving_reads web
      (may_release tools.controlled leaving_reads web)
      (handle_finalizer tools.controlled leaving_reads web)
    ≡ true
handle_finalizer-ends_example = handle_finalizer-ends tools.controlled leaving_reads web refl

-- The first pass over an addon, which stores the finalizer.
abbrev first_reads : AddonReads
first_reads = record {
  addon = got web;
  deleting = false;
  update_finalizer = got web;
  sync = web_reads;
  deletion = record leaving_reads { has_finalizer = false };
}

addon_reconcile-Ran_example : Ran tools first_reads (addon_reconcile machinery tools first_reads)
addon_reconcile-Ran_example = addon_reconcile-Ran tools first_reads machinery
