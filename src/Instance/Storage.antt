-- ===== src/Instance/Storage.antt =====
-- internal/controller/odooinstance_storage.go: the two PersistentVolumeClaims of an instance.
pub mod Claims
use odoo_k8_operator.Base.{
  String, Bool, true, false, ◌&&◌, ◌||◌, not, ◌⧺◌, ◌==◌, if◌then◌else◌, bool_eq, any, keep, List,
  [], ◌∷◌, Option, none, some, ◌⊎◌, inl, inr, quote,
}
use odoo_k8_operator.Kube.{Reply, got, refused}
use odoo_k8_operator.Kube.Retry.{is_not_found}
use odoo_k8_operator.Errors.{Error, api, wrap, reasoned}
use odoo_k8_operator.Api.Reasons.{reason_invalid_config}
use odoo_k8_operator.Api.Instance.{OdooInstance, OdooInstanceSpec}
use odoo_k8_operator.Names.{addons_pvc_name, data_pvc_name}
use odoo_k8_operator.Instance.Pass.{
  OwnerRef, NewClaim, created_claim, patched_claim, InstanceReads, InstanceTools, Prog, pure, raise,
  write, lift, api_error, ◌>>=◌, ◌>>◌,
}

-- dataRetainOnDelete
unfoldable pub data_retain_on_delete : OdooInstanceSpec → Bool
data_retain_on_delete spec = elim spec.data_volume.retain_on_delete [ none ↦ true | some b ↦ b ]

-- accessModesOrDefault
unfoldable pub access_modes_or_default : String → List String
access_modes_or_default mode = (if mode == "" then "ReadWriteOnce" else mode) ∷ []

-- hasOwnerRef
unfoldable pub has_owner_ref : List OwnerRef → String → Bool
has_owner_ref refs uid = any (λ r. r.uid == uid) refs

-- ownerRefsWithoutUID
unfoldable pub owner_refs_without_uid : List OwnerRef → String → List OwnerRef
owner_refs_without_uid refs uid = keep (λ r. not (r.uid == uid)) refs

-- pvcRequest
pub record ClaimRequest : Type 0 where
  pub name : String
  pub size : String
  pub default_size : String
  pub storage : Option String
  pub access_mode : String
  pub owned : Bool

-- The requests of reconcilePVC
unfoldable pub addons_request : OdooInstance → ClaimRequest
unfolding addons_pvc_name
addons_request inst = record {
  name = addons_pvc_name inst.meta.name;
  size = inst.spec.addons.size;
  default_size = "10Gi";
  storage = inst.spec.addons.storage_class;
  access_mode = inst.spec.addons.access_mode;
  owned = true;
}

unfoldable pub data_request : OdooInstance → ClaimRequest
unfolding data_pvc_name data_retain_on_delete
data_request inst = record {
  name = data_pvc_name inst.meta.name;
  size = inst.spec.data_volume.size;
  default_size = "5Gi";
  storage = inst.spec.data_volume.storage_class;
  access_mode = inst.spec.data_volume.access_mode;
  owned = not (data_retain_on_delete inst.spec);
}

module _ (t : InstanceTools) (r : InstanceReads) where
  -- The owners that a claim is to get.
  unfoldable pub owners_for : OdooInstance → Bool → List OwnerRef → Error ⊎ List OwnerRef
  unfolding owner_refs_without_uid
  owners_for inst owned refs =
      if owned then t.own inst.meta.uid refs else inr (owner_refs_without_uid refs inst.meta.uid)

  -- syncPVCOwnership
  unfoldable pub sync_pvc_ownership : OdooInstance → String → List OwnerRef → Bool → Prog (Unit {0})
  unfolding has_owner_ref owners_for
  sync_pvc_ownership inst name refs owned =
      if bool_eq owned (has_owner_ref refs inst.meta.uid) then pure tt else do
        owners ← lift (owners_for inst owned refs)
        write (api_error (r.write_claim name)) (patched_claim name owners)

  -- The size of a claim, as a quantity.
  unfoldable pub claim_size : ClaimRequest → Error ⊎ String
  claim_size req =
      let size = if req.size == "" then req.default_size else req.size in
      elim (t.parse_quantity size) [
        | inl e ↦ inl (
            reasoned reason_invalid_config
              (wrap ("invalid size " ⧺ quote size ⧺ " for PVC " ⧺ req.name ⧺ ": ") e))
        | inr q ↦ inr q
      ]

  -- reconcileSinglePVC where the claim is missing
  unfoldable pub create_claim : OdooInstance → ClaimRequest → Prog (Unit {0})
  unfolding claim_size access_modes_or_default
  create_claim inst req = do
    quantity ← lift (claim_size req)
    owners ← lift (if req.owned then t.own inst.meta.uid [] else inr [])
    write (api_error (r.write_claim req.name)) (
        created_claim (record {
          name = req.name;
          namespace = inst.meta.namespace;
          access_modes = access_modes_or_default req.access_mode;
          size = quantity;
          storage_class = req.storage;
          owners = owners;
        }))

  unfoldable pub single_pvc : OdooInstance → ClaimRequest → Reply (List OwnerRef) → Prog (Unit {0})
  unfolding sync_pvc_ownership create_claim
  single_pvc inst req (got refs) = sync_pvc_ownership inst req.name refs req.owned
  single_pvc inst req (refused e) = if is_not_found e then create_claim inst req else raise (api e)

  -- reconcileSinglePVC
  unfoldable pub reconcile_single_pvc : OdooInstance → ClaimRequest → Prog (Unit {0})
  unfolding single_pvc
  reconcile_single_pvc inst req = single_pvc inst req (r.claim req.name)

  -- reconcilePVC
  unfoldable pub reconcile_pvc : OdooInstance → Prog (Unit {0})
  unfolding reconcile_single_pvc addons_request data_request
  reconcile_pvc inst = do
    reconcile_single_pvc inst (addons_request inst)
    reconcile_single_pvc inst (data_request inst)
