-- ===== src/Instance/Reconcile/Every.antt =====
-- Every pass over an OdooInstance makes allowed writes only.
use odoo_k8_operator.Base.{String, List}
use odoo_k8_operator.Kube.Meta.{IsLawful}
use odoo_k8_operator.Api.{OdooAddon}
use odoo_k8_operator.Api.Instance.{OdooInstance, OdooInstanceStatus}
use odoo_k8_operator.Phases.{phase_creating}
use odoo_k8_operator.Instance.Init.{InitDecision}
use odoo_k8_operator.Instance.Addons.{
  addon_mount_paths, addons_hash, config_hash, secrets_hash, SecretData,
}
use odoo_k8_operator.Instance.Pass.{InstanceWrite, InstanceReads, InstanceTools, Prog, ◌>>=◌, ◌>>◌}
use odoo_k8_operator.Instance.Pass.Runs.{Runs}
use odoo_k8_operator.Instance.Storage.Claims.{IsOwning}
use odoo_k8_operator.Instance.Parts.{Outcome}
use odoo_k8_operator.Instance.Parts.Steps.{
  reconcile_config_map, referenced_secrets, list_ready_addons, initialization, gating,
}
use odoo_k8_operator.Instance.Reconcile.{roll_out}
use odoo_k8_operator.Instance.Reconcile.Safe.{Allowed}

module _ (t : InstanceTools) (law : IsLawful t.machinery.conditions) (owning : IsOwning t)
    (r : InstanceReads) where
  module _ (inst : OdooInstance) where
    abbrev P : InstanceWrite → Type 0
    P = Allowed t r inst

    -- The rest of the pass, from each of its steps on.
    abbrev from_gate : String → List SecretData → List OdooAddon → InitDecision → Prog Outcome
    from_gate conf secrets addons dec = gating t r dec (addons_hash t.sha addons) >>= λ gate.
        roll_out t r inst inst.status (addon_mount_paths addons) gate dec (record {
          config = config_hash t.sha conf;
          secrets = secrets_hash t.sha t.hex secrets;
          addons = gate.template_hash;
        })

    abbrev from_addons : String → List SecretData → Prog Outcome
    from_addons conf secrets = list_ready_addons t r inst >>= λ addons.
        initialization t r >>= from_gate conf secrets addons

    abbrev from_config : String → Prog Outcome
    from_config conf =
        reconcile_config_map t r inst conf >> (referenced_secrets t r inst >>= from_addons conf)

    abbrev starting : OdooInstanceStatus → OdooInstanceStatus
    starting st = record st { phase = phase_creating; observed_generation = inst.meta.generation }
