-- ===== src/Instance/Storage/Claims.antt =====
-- The owner of each claim is as the retention policy says.
use odoo_k8_operator.Base.{
  String, Bool, true, false, not, if◌then◌else◌, bool_eq, List, [], ◌∷◌, none, some, ◌⊎◌, inl, inr,
  ◌≡◌, refl, subst, ◌∙◌, Option-cases, Bool-cases, arith,
}
use odoo_k8_operator.Kube.{Reply, got, refused}
use odoo_k8_operator.Kube.Retry.{is_not_found}
use odoo_k8_operator.Api.Instance.{OdooInstance, OdooInstanceSpec}
use odoo_k8_operator.Names.{addons_pvc_name, data_pvc_name}
use odoo_k8_operator.Instance.Pass.{
  OwnerRef, InstanceWrite, created_claim, patched_claim, InstanceReads, InstanceTools, write, lift,
  api_error,
}
use odoo_k8_operator.Instance.Pass.Runs.{
  Runs, pure-Runs, raise-Runs, lift-Runs, write-Runs, then-Runs, Idle,
}
use odoo_k8_operator.Instance.Storage.{
  data_retain_on_delete, ClaimRequest, has_owner_ref, owner_refs_without_uid, owners_for,
  sync_pvc_ownership, claim_size, create_claim, single_pvc, reconcile_single_pvc, reconcile_pvc,
  addons_request, data_request,
}

-- What SetControllerReference documents: it adds the owner, or fails.
pub record IsOwning (t : InstanceTools) : Type 0 where
  pub owns :
      (uid : String) (refs owners : List OwnerRef)
      → t.own uid refs ≡ inr owners
      → has_owner_ref owners uid ≡ true

-- The filestore is deleted with the instance.
abbrev pub data_is_deleted : OdooInstanceSpec → Bool
data_is_deleted spec = elim spec.data_volume.retain_on_delete [ none ↦ false | some b ↦ not b ]

-- The claim of the addons is the instance's; that of the data is, exactly if it is deleted with it.
abbrev pub Belongs : OdooInstance → String → List OwnerRef → Type 0
Belongs inst name owners =
    ((name ≡ addons_pvc_name inst.meta.name) × (has_owner_ref owners inst.meta.uid ≡ true))
    ⊎ ((name ≡ data_pvc_name inst.meta.name)
        × (has_owner_ref owners inst.meta.uid ≡ data_is_deleted inst.spec))

-- The writes of reconcilePVC, which are of claims.
abbrev pub IsOwned : OdooInstance → InstanceWrite → Type 0
IsOwned inst (created_claim c) = Belongs inst c.name c.owners
IsOwned inst (patched_claim name owners) = Belongs inst name owners
IsOwned inst _ = ⊥

without-has_owner_ref :
    (refs : List OwnerRef) (uid : String)
    → has_owner_ref (owner_refs_without_uid refs uid) uid ≡ false
unfolding has_owner_ref owner_refs_without_uid
without-has_owner_ref [] uid = refl
without-has_owner_ref (x ∷ refs) uid = ground (arith, without-has_owner_ref refs uid)

-- A request whose claim belongs where its owner is as it says.
abbrev IsRequest : OdooInstance → ClaimRequest → Type 0
IsRequest inst req =
    (owners : List OwnerRef)
    → has_owner_ref owners inst.meta.uid ≡ req.owned
    → Belongs inst req.name owners

not_retained : (spec : OdooInstanceSpec) → not (data_retain_on_delete spec) ≡ data_is_deleted spec
unfolding data_retain_on_delete
not_retained spec = elim (Option-cases spec.data_volume.retain_on_delete) [
  | inl h ↦ rw h refl
  | inr (b, h) ↦ rw h refl
]

module _ (t : InstanceTools) (owning : IsOwning t) (r : InstanceReads) (inst : OdooInstance) where
  owners_for-owned :
      (owned : Bool) (refs owners : List OwnerRef)
      → owners_for t r inst owned refs ≡ inr owners
      → has_owner_ref owners inst.meta.uid ≡ owned
  unfolding owners_for
  owners_for-owned true refs owners h = owning.owns inst.meta.uid refs owners h
  owners_for-owned false refs owners h =
      let same : owner_refs_without_uid refs inst.meta.uid ≡ owners = cc in
      subst (λ o. has_owner_ref o inst.meta.uid ≡ false) same
        (without-has_owner_ref refs inst.meta.uid)

  new_owners-owned :
      (owned : Bool) (owners : List OwnerRef)
      → (if owned then t.own inst.meta.uid [] else inr []) ≡ inr owners
      → has_owner_ref owners inst.meta.uid ≡ owned
  unfolding has_owner_ref
  new_owners-owned true owners h = owning.owns inst.meta.uid [] owners h
  new_owners-owned false owners h =
      let same : [] ≡ owners = cc in subst (λ o. has_owner_ref o inst.meta.uid ≡ false) same refl

  module _ (req : ClaimRequest) (is : IsRequest inst req) where
    claim_write-Runs :
        (w : InstanceWrite) (i : OdooInstance)
        → IsOwned inst w
        → Runs (IsOwned inst) (Idle i) (write (api_error (r.write_claim req.name)) w i)
    claim_write-Runs w i h =
        write-Runs (IsOwned inst) (Idle i) (api_error (r.write_claim req.name)) w i h (tt, refl)

    sync-Runs :
        (refs : List OwnerRef) (i : OdooInstance)
        → Runs (IsOwned inst) (Idle i) (sync_pvc_ownership t r inst req.name refs req.owned i)
    unfolding sync_pvc_ownership
    sync-Runs refs i = elim (Bool-cases (bool_eq req.owned (has_owner_ref refs inst.meta.uid))) [
      | inl h ↦ rw h (pure-Runs (IsOwned inst) (Idle i) tt i (tt, refl))
      | inr h ↦ rw h (
          then-Runs (IsOwned inst)
            (λ (owners : List OwnerRef). has_owner_ref owners inst.meta.uid ≡ req.owned) (Idle i)
            (lift (owners_for t r inst req.owned refs)) _ i
            (lift-Runs (IsOwned inst) _ (owners_for t r inst req.owned refs) i
              (λ owners e. (owners_for-owned req.owned refs owners e, refl)))
            (λ owners q. claim_write-Runs (patched_claim req.name owners) i (is owners q)))
    ]

    create-Runs : (i : OdooInstance) → Runs (IsOwned inst) (Idle i) (create_claim t r inst req i)
    unfolding create_claim
    create-Runs i =
        then-Runs (IsOwned inst) (λ (quantity : String). Unit {0}) (Idle i)
          (lift (claim_size t r req)) _ i
          (lift-Runs (IsOwned inst) _ (claim_size t r req) i (λ q e. (tt, refl)))
          (λ quantity q.
            then-Runs (IsOwned inst)
              (λ (owners : List OwnerRef). has_owner_ref owners inst.meta.uid ≡ req.owned) (Idle i)
              (lift (if req.owned then t.own inst.meta.uid [] else inr [])) _ i
              (lift-Runs (IsOwned inst) _ (if req.owned then t.own inst.meta.uid [] else inr []) i
                (λ owners e. (new_owners-owned req.owned owners e, refl)))
              (λ owners q'. claim_write-Runs _ i (is owners q')))

    single-Runs :
        (reply : Reply (List OwnerRef)) (i : OdooInstance)
        → Runs (IsOwned inst) (Idle i) (single_pvc t r inst req reply i)
    unfolding single_pvc
    single-Runs (got refs) i = sync-Runs refs i
    single-Runs (refused e) i = elim (Bool-cases (is_not_found e)) [
      | inl h ↦ rw h (create-Runs i)
      | inr h ↦ rw h (raise-Runs (IsOwned inst) (Idle i) _ i)
    ]

  -- Whatever is there and whatever answers come, a claim that is created or patched belongs to the
  -- instance exactly if it is to be deleted with it.
  pub reconcile_pvc-Runs :
      (i : OdooInstance) → Runs (IsOwned inst) (Idle i) (reconcile_pvc t r inst i)
  unfolding reconcile_pvc reconcile_single_pvc addons_request data_request
  reconcile_pvc-Runs i =
      then-Runs (IsOwned inst) (λ (u : Unit {0}). Unit {0}) (Idle i)
        (reconcile_single_pvc t r inst (addons_request inst)) _ i
        (single-Runs (addons_request inst) (λ owners h. inl (refl, h)) _ i)
        (λ u q.
          single-Runs (data_request inst) (λ owners h. inr (refl, h ∙ not_retained inst.spec)) _ i)
