-- ===== src/Lib.antt =====
-- The Odoo operator for Kubernetes (api/v1, internal/controller): four kinds of objects, OdooInstance,
-- OdooAddon, OdooUpgrade and OdooBackup, and a reconciler for each. A reconciler is called with the name
-- of an object, reads the cluster, does at most a few writes, and returns when to be called again. The
-- reconcilers work on shared objects: the instance's gate and initialisation create OdooUpgrades and
-- read their phases, an upgrade holds the line of its instance, an addon waits for the instance's
-- volume.
--
-- How the code is modelled. A call that changes nothing outside is a function by clauses, with the
-- code's conditions in the code's order. A pass of a reconciler is a function of the answers that its
-- API calls get, of the Job logs that it reads and of the clock (a record of reads), and returns what it
-- did (a record: the writes that went through, the events, the requeue, the error). The pass over an
-- OdooInstance, which makes many writes, is a sequence of steps in a `do` block, and lists its writes in
-- their order. So a theorem about all passes is one about all answers, stale ones and errors included.
-- The store is modelled where a property is about what several passes do to one object: `Upgrade.Lifecycle`
-- and `Backup.Lifecycle` have the steps that change it. Times are whole seconds, as the API server keeps
-- them. Errors are values (`Errors`).
--
--   Base        numbers, texts and lists: Go's `<` on strings, %d, %q, strings.Join, strings.Trim,
--               slices.Sort, slices.Compact, FNV-1a
--   Kube        what is used of the Kubernetes API types; `Kube.Meta` the list of conditions, a parameter,
--               with `Kube.Meta.Plain`, a list that has the documented behaviour; `Kube.Retry` a status
--               write under RetryOnConflict, as a function of one answer to each attempt
--   Machinery   the other functions that are not in the repository, as one record of parameters:
--               RetryOnConflict's test and DeepEqual of statuses, with what is documented of them
--   Api         api/v1: the specs and statuses, and the reasons of conditions.go
--   Phases      the phases of api/v1 and internal/controller
--   Names       upgradeBoundedName, backupBoundedName, gateUpgradeName and the names built with them
--   Shell       shQuote, shQuoteWord, shJoin, upgradeInitScript; `Shell.Words` how a shell cuts a command
--               into words, which is no code of the operator
--   Webhook     api/v1/odooaddon_webhook.go
--   Errors, Conditions, Events
--               internal/controller/conditions.go, events.go and odoobackup_status.go
--   JobStatus   what is read off a Job and its pods
--   PodLogs     jobPod, readJobLogs, backupLatestPod, backupPodLogs and upgradeLogTail
--   Queue       odooupgrade_queue.go and odoobackup_queue.go, once for both kinds
--   Upgrade     odooupgrade_controller.go and odooupgrade_job.go: `Upgrade.Status` upgradeWriteStatus,
--               `Upgrade.Reconcile` Reconcile, upgradeStart and upgradeMonitor, `Upgrade.Job`
--               buildUpgradeJob; `Upgrade.Progress` is about the queue and the reconciler together
--   Backup      `Backup.Validate` odoobackup_validate.go, `Backup.Script` odoobackup_script.go,
--               `Backup.Settings` and `Backup.Job` odoobackup_job.go, `Backup.Logs` what is read off pod
--               logs, `Backup.Status`, `Backup.OneShot`, `Backup.Schedule` and `Backup.Reconcile`
--               odoobackup_controller.go
--   Addon       `Addon.State` odooaddon_state.go, `Addon.Spec` the validation of odooaddon_sync.go,
--               `Addon.Script` and `Addon.Job` its scripts and Jobs, `Addon.Output` its log parser,
--               `Addon.Status`, `Addon.Pass`, `Addon.Sync`, `Addon.Deletion` and `Addon.Reconcile`
--               odooaddon_controller.go
--   Instance    `Instance.Gate` odooinstance_gate.go, `Instance.Init` odooinstance_init.go, `Instance.Config`
--               odooinstance_config.go, `Instance.Addons` odooinstance_addons.go and odooinstance_hash.go,
--               `Instance.Storage` odooinstance_storage.go, `Instance.Workload` odooinstance_workload.go,
--               `Instance.Cron` odooinstance_cron.go; `Instance.Pass` what a pass reads and writes,
--               `Instance.Parts` its steps, `Instance.Reconcile` odooinstance_controller.go,
--               `Instance.Watch` its watches of Secrets and addons
--   Examples    the theorems at concrete objects
--
-- Bounds and fuel. Recursion is structural, along lists and texts. The attempts of RetryOnConflict are the
-- list of the answers that they get, which may have any length. `decimal` divides by ten on fuel one
-- above its argument, which has fewer digits than that. FNV-1a wraps at 32 bits.
--
-- Parameters. SHA-256 of a JSON list, url.Parse and IsControlledBy are parameters of `Addon.Pass`
-- (`SyncTools`); SHA-256 of a text, SetControllerReference and ParseQuantity are parameters of
-- `Instance.Pass` (`InstanceTools`); ParseQuantity, json.Marshal, DeepEqual of labels and the images that
-- the environment names are parameters of `Backup.Settings` (`BackupTools`); the functions of `Machinery`
-- are parameters of every pass. Only the theorems on conditions and the one on a pass over an OdooInstance
-- use what is documented of conditions, and the latter what is documented of SetControllerReference; that
-- on the progress of upgrades uses that statuses which DeepEqual takes for equal are in one phase, that on
-- the application of a CronJob that DeepEqual holds of equal labels; all others hold whatever these
-- functions do.
--
-- Not modelled: the streams of pod logs, of which what is read is an answer of a pass; resource
-- requirements, which are copied whole; the manager's wiring, with the watches of owned objects; the
-- scripts' meaning in a shell; generated code.
pub mod Base
pub mod Kube
pub mod Api
pub mod Phases
pub mod Names
pub mod Shell
pub mod Errors
pub mod Conditions
pub mod Machinery
pub mod JobStatus
pub mod PodLogs
pub mod Events
pub mod Queue
pub mod Upgrade
pub mod Backup
pub mod Addon
pub mod Webhook
pub mod Instance
pub mod Examples
