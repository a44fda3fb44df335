-- ===== src/Examples/Sync.antt =====
-- The Jobs of the addon of the examples, and what their logs are read to.
use odoo_k8_operator.Base.{true, false, ◌⧺◌, [], ◌∷◌, ◌≡◌, refl, join, sort, compact, any}
use odoo_k8_operator.Addon.Spec.{SyncSpec, auth_https_token, validate_module_name}
use odoo_k8_operator.Addon.Job.{SyncJobOptions}
use odoo_k8_operator.Addon.Output.{output, parse_sync_output, read_sync_output, modules_line_prefix}
use odoo_k8_operator.Addon.Output.Valid.{is_invalid}
use odoo_k8_operator.Addon.Output.Reported.{parse_sync_output-printed}
use odoo_k8_operator.Addon.Output.Blank.{ReadOutcome, read_sync_output-ReadOutcome}
use odoo_k8_operator.Examples.Samples.{succeeded_job}
use odoo_k8_operator.Examples.Addon.{web_logs}
use odoo_k8_operator.PodLogs.{read_job_logs}

abbrev options : SyncJobOptions
options = record {
  image = "alpine/git";
  pvc_name = "shop-addons";
  node_name = "node-1";
  addons_access_mode = "ReadWriteOnce";
}

-- The spec of a private repository.
abbrev private_spec : SyncSpec
private_spec = record {
  git_url = "https://example.org/web.git";
  git_ref = "main";
  addon_name = "web";
  module_name = "web";
  addon_path = "";
  single_addon = true;
  secret_name = "git";
  auth = auth_https_token;
}

names_valid : any is_invalid ("web" ∷ "crm" ∷ "web" ∷ []) ≡ false
unfolding is_invalid validate_module_name
names_valid = refl

parse_sync_output-printed_example :
    parse_sync_output (
      "Cloning into '/tmp/repo'..."
      ⧺ "\n"
      ⧺ (modules_line_prefix ⧺ join "," ("web" ∷ "crm" ∷ "web" ∷ []))
      ⧺ "\n"
      ⧺ "89abcdef"
      ⧺ "\n"
      ⧺ "")
    ≡ record { commit = "89abcdef"; modules = compact (sort ("web" ∷ "crm" ∷ "web" ∷ [])) }
parse_sync_output-printed_example =
    parse_sync_output-printed "web" ("crm" ∷ "web" ∷ []) names_valid "89abcdef" refl refl
      "Cloning into '/tmp/repo'..."

read_sync_output-ReadOutcome_example : ReadOutcome web_logs (succeeded_job "web-sync" []) (
    read_sync_output
      (succeeded_job "web-sync" [])
      (read_job_logs web_logs (succeeded_job "web-sync" [])))
read_sync_output-ReadOutcome_example =
    read_sync_output-ReadOutcome web_logs (succeeded_job "web-sync" [])

later_pod :
    read_sync_output
      (succeeded_job "web-sync" [])
      (read_job_logs web_logs (succeeded_job "web-sync" []))
    ≡ output "89abcdef" ("web" ∷ [])
unfolding read_sync_output read_job_logs
later_pod = refl

reported :
    parse_sync_output " \nmodules: web,crm,web\n89abcdef\n"
    ≡ record { commit = "89abcdef"; modules = "crm" ∷ "web" ∷ [] }
unfolding parse_sync_output
reported = refl

unreported :
    parse_sync_output "modules: web,.git\n89abcdef\n" ≡ record { commit = "89abcdef"; modules = [] }
unfolding parse_sync_output
unreported = refl
