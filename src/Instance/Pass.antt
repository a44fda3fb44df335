-- ===== src/Instance/Pass.antt =====
-- What a pass of the OdooInstance reconciler (internal/controller/odooinstance_controller.go) reads
-- and writes. A step of a pass is a function of the instance in memory, whose status it may set, and
-- comes to the writes that went through, in their order, the instance as it then is in memory, and
-- an error or a value. `do` puts steps one after the other; an error ends them.
pub mod Runs
use odoo_k8_operator.Base.{
  ℤ, String, Bool, true, false, List, [], ◌∷◌, ◌++◌, Option, none, some, ◌⊎◌, inl, inr,
}
use odoo_k8_operator.Kube.{ApiError, Reply}
use odoo_k8_operator.Kube.Apps.{NewDeployment, NewService, NewBudget}
use odoo_k8_operator.Kube.Retry.{ignore_not_found}
use odoo_k8_operator.Errors.{Error, api}
use odoo_k8_operator.Machinery.{Machinery}
use odoo_k8_operator.Events.{Recorded}
use odoo_k8_operator.Api.{OdooAddon}
use odoo_k8_operator.Api.Instance.{OdooInstance, OdooInstanceStatus}
use odoo_k8_operator.Instance.Gate.{NewUpgrade, GateReads}
use odoo_k8_operator.Instance.Init.{InitReads}
use odoo_k8_operator.Instance.Addons.{SecretData}

-- metav1.OwnerReference
pub record OwnerRef : Type 0 where
  pub uid : String
  pub controller : Bool

-- A PersistentVolumeClaim as the operator creates it; the size is a quantity.
pub record NewClaim : Type 0 where
  pub name : String
  pub namespace : String
  pub access_modes : List String
  pub size : String
  pub storage_class : Option String
  pub owners : List OwnerRef

pub data InstanceWrite : Type 0 where
  -- Update of the metadata, with and without the finalizer
  added_finalizer removed_finalizer : InstanceWrite
  created_claim : NewClaim → InstanceWrite
  -- The claim of that name gets these owners.
  patched_claim : String → List OwnerRef → InstanceWrite
  -- The ConfigMap of that name, with its odoo.conf
  wrote_config_map : String → String → InstanceWrite
  asked_upgrade : NewUpgrade → InstanceWrite
  wrote_deployment : NewDeployment → InstanceWrite
  wrote_budget : NewBudget → InstanceWrite
  deleted_budget : String → InstanceWrite
  wrote_service : NewService → InstanceWrite
  wrote_cron : NewDeployment → InstanceWrite
  deleted_cron : String → InstanceWrite
  stored_status : OdooInstanceStatus → InstanceWrite

-- A cron Deployment after CreateOrUpdate: whether it was created, and its replicas.
pub record CronSeen : Type 0 where
  pub created : Bool
  pub replicas : ℤ
  pub ready : ℤ

-- The answers that a pass gets. A CreateOrUpdate is one answer, which covers SetControllerReference.
pub record InstanceReads : Type 0 where
  pub instance_reply : Reply OdooInstance
  -- Of the metadata: DeletionTimestamp is set, and the finalizer is there.
  pub deleting : Bool
  pub has_finalizer : Bool
  pub update_metadata : Option ApiError
  -- The owner references of the claim of a name, and the answer to a Create or Patch of it
  pub claim : String → Reply (List OwnerRef)
  pub write_claim : String → Option ApiError
  pub config_map : Option Error
  pub secret : String → Reply SecretData
  pub addons : Reply (List OdooAddon)
  pub init : InitReads
  pub gate : GateReads
  pub write_deployment : Option Error
  -- The ready replicas of the Deployment, after it was written
  pub deployment : Reply ℤ
  -- Whether the instance controls the PodDisruptionBudget that is there
  pub budget : Reply Bool
  pub write_budget : Option Error
  pub delete_budget : Option ApiError
  pub service : Option Error
  -- Whether the instance controls the cron Deployment that is there
  pub cron : Reply Bool
  pub write_cron : Error ⊎ CronSeen
  pub delete_cron : Option ApiError
  -- The status write at the end of a pass, and the one after an error
  pub write_status : Option ApiError
  pub write_failed_status : Option ApiError
  pub recorder : Bool

-- Functions of other packages.
pub record InstanceTools : Type 0 where
  pub machinery : Machinery
  -- SetControllerReference by the instance of this uid, on an object with these owners
  pub own : String → List OwnerRef → Error ⊎ List OwnerRef
  -- resource.ParseQuantity
  pub parse_quantity : String → Error ⊎ String
  -- SHA-256 of a text, and the bytes of a Secret's value, in hexadecimal
  pub sha : String → String
  pub hex : String → String

pub record Step (A : Type 0) : Type 0 where
  pub writes : List InstanceWrite
  pub after : OdooInstance
  pub result : Error ⊎ A

abbrev pub Prog : Type 0 → Type 0
Prog A = OdooInstance → Step A

abbrev pub pure : {A : Type 0} → A → Prog A
pure a inst = record { writes = []; after = inst; result = inr a }

abbrev pub raise : {A : Type 0} → Error → Prog A
raise e inst = record { writes = []; after = inst; result = inl e }

-- The instance in memory
abbrev pub current : Prog OdooInstance
current inst = record { writes = []; after = inst; result = inr inst }

abbrev pub set_status : (OdooInstanceStatus → OdooInstanceStatus) → Prog (Unit {0})
set_status f inst = record {
  writes = [];
  after = record inst { status = f inst.status };
  result = inr tt;
}

-- A write, which is done unless it gets an error.
abbrev pub write : Option Error → InstanceWrite → Prog (Unit {0})
write none w inst = record { writes = w ∷ []; after = inst; result = inr tt }
write (some e) w inst = raise e inst

abbrev pub api_error : Option ApiError → Option Error
api_error none = none
api_error (some e) = some (api e)

abbrev pub raise_if : Option Error → Prog (Unit {0})
raise_if none = pure tt
raise_if (some e) = raise e

-- A Delete; an object that is gone already is fine.
abbrev pub delete_step : Option ApiError → InstanceWrite → Prog (Unit {0})
delete_step none w = write none w
delete_step (some e) w = raise_if (ignore_not_found e)

-- An error, or a value
abbrev pub lift : {A : Type 0} → Error ⊎ A → Prog A
lift (inl e) = raise e
lift (inr a) = pure a

abbrev pub continue :
    {A B : Type 0} → List InstanceWrite → OdooInstance → Error ⊎ A → (A → Prog B) → Step B
continue ws inst (inl e) f = record { writes = ws; after = inst; result = inl e }
continue ws inst (inr a) f =
    let s = f a inst in record { writes = ws ++ s.writes; after = s.after; result = s.result }

infixl 5 ◌>>=◌ ◌>>◌
abbrev pub ◌>>=◌ : {A B : Type 0} → Prog A → (A → Prog B) → Prog B
◌>>=◌ m f inst = let s = m inst in continue s.writes s.after s.result f

abbrev pub ◌>>◌ : {B : Type 0} → Prog (Unit {0}) → Prog B → Prog B
m >> k = m >>= λ _. k
