-- ===== src/Instance/Watch.antt =====
-- Which changes of other objects make a pass over an OdooInstance run: instancesUsingSecret and the
-- watch of OdooAddons in SetupWithManager (internal/controller/odooinstance_controller.go).
pub mod Unwatched
use odoo_k8_operator.Base.{String, Bool, ◌||◌, ◌==◌, if◌then◌else◌, List, [], ◌∷◌, ◌++◌}
use odoo_k8_operator.Kube.{Reply, got, refused}
use odoo_k8_operator.Api.{OdooAddon}
use odoo_k8_operator.Api.Instance.{OdooInstance}

-- reconcile.Request
pub record Request : Type 0 where
  pub name : String
  pub namespace : String

abbrev pub request_for : OdooInstance → Request
request_for inst = record { name = inst.meta.name; namespace = inst.meta.namespace }

abbrev pub uses_secret : String → OdooInstance → Bool
uses_secret secret inst =
    inst.spec.postgres.password_secret == secret || inst.spec.admin_password_secret == secret

-- The loop of instancesUsingSecret, over the instances of the Secret's namespace
unfoldable pub requests_using : String → List OdooInstance → List Request
requests_using secret [] = []
requests_using secret (inst ∷ insts) =
    let rest = requests_using secret insts in
    if uses_secret secret inst then request_for inst ∷ rest else rest

-- instancesUsingSecret
unfoldable pub instances_using_secret : String → Reply (List OdooInstance) → List Request
unfolding requests_using
instances_using_secret secret (refused e) = []
instances_using_secret secret (got insts) = requests_using secret insts

-- What a change of an OdooAddon is mapped to; an update is mapped for the old and for the new addon.
unfoldable pub addon_requests : OdooAddon → List Request
addon_requests addon =
    if addon.spec.instance_ref.name == ""
    then []
    else record { name = addon.spec.instance_ref.name; namespace = addon.meta.namespace } ∷ []

unfoldable pub all_addon_requests : List OdooAddon → List Request
unfolding addon_requests
all_addon_requests [] = []
all_addon_requests (a ∷ rest) = addon_requests a ++ all_addon_requests rest
