-- ===== src/Instance/Pass/Runs.antt =====
-- What is to be said of a step: all its writes are allowed, and if it comes to a value, that value
-- and the instance in memory are as promised.
use odoo_k8_operator.Base.{
  List, [], ◌∷◌, ◌++◌, Option, none, some, ◌⊎◌, inl, inr, ◌≡◌, refl, sym, subst,
}
use odoo_k8_operator.Errors.{Error}
use odoo_k8_operator.Api.Instance.{OdooInstance, OdooInstanceStatus}
use odoo_k8_operator.Instance.Pass.{
  InstanceWrite, Step, Prog, pure, raise, set_status, write, lift, continue, ◌>>=◌,
}

abbrev pub Each : (InstanceWrite → Type 0) → List InstanceWrite → Type 0
Each P [] = Unit {0}
Each P (w ∷ ws) = P w × Each P ws

abbrev pub Holds : {A : Type 0} → (A → OdooInstance → Type 0) → OdooInstance → Error ⊎ A → Type 0
Holds Q inst (inl e) = Unit {0}
Holds Q inst (inr a) = Q a inst

-- A value is as promised, and the instance in memory is as it was.
abbrev pub Stays : {A : Type 0} → OdooInstance → (A → Type 0) → A → OdooInstance → Type 0
Stays inst Q a i = Q a × (i ≡ inst)

-- The instance in memory is as it was.
abbrev pub Idle : OdooInstance → Unit {0} → OdooInstance → Type 0
Idle inst = Stays inst (λ u. Unit {0})

pub record Runs {A : Type 0} (P : InstanceWrite → Type 0) (Q : A → OdooInstance → Type 0)
    (s : Step A) : Type 0 where
  pub allowed : Each P s.writes
  pub promised : Holds Q s.after s.result

pub Each-append :
    (P : InstanceWrite → Type 0) (xs ys : List InstanceWrite)
    → Each P xs
    → Each P ys
    → Each P (xs ++ ys)
Each-append P [] ys h k = k
Each-append P (x ∷ xs) ys h k = (h.0, Each-append P xs ys h.1 k)

pub Each-weaken :
    (P R : InstanceWrite → Type 0)
    → ((w : InstanceWrite) → P w → R w)
    → (ws : List InstanceWrite) → Each P ws
    → Each R ws
Each-weaken P R f [] h = tt
Each-weaken P R f (w ∷ ws) h = (f w h.0, Each-weaken P R f ws h.1)

-- More may be allowed than what is done.
pub Runs-weaken :
    {A : Type 0} (P R : InstanceWrite → Type 0) (Q : A → OdooInstance → Type 0)
    → ((w : InstanceWrite) → P w → R w)
    → (s : Step A) → Runs P Q s
    → Runs R Q s
Runs-weaken P R Q f s h = record {
  allowed = Each-weaken P R f s.writes h.allowed;
  promised = h.promised;
}

module _ (P : InstanceWrite → Type 0) where
  pub pure-Runs :
      {A : Type 0} (Q : A → OdooInstance → Type 0) (a : A) (inst : OdooInstance)
      → Q a inst
      → Runs P Q (pure a inst)
  pure-Runs Q a inst q = record { allowed = tt; promised = q }

  pub raise-Runs :
      {A : Type 0} (Q : A → OdooInstance → Type 0) (e : Error) (inst : OdooInstance)
      → Runs P Q (raise e inst)
  raise-Runs Q e inst = record { allowed = tt; promised = tt }

  pub lift-Runs :
      {A : Type 0} (Q : A → OdooInstance → Type 0) (r : Error ⊎ A) (inst : OdooInstance)
      → ((a : A) → r ≡ inr a → Q a inst)
      → Runs P Q (lift r inst)
  lift-Runs Q (inl e) inst h = record { allowed = tt; promised = tt }
  lift-Runs Q (inr a) inst h = record { allowed = tt; promised = h a refl }

  pub write-Runs :
      (Q : Unit {0} → OdooInstance → Type 0) (e : Option Error) (w : InstanceWrite)
      (inst : OdooInstance)
      → P w
      → Q tt inst
      → Runs P Q (write e w inst)
  write-Runs Q none w inst p q = record { allowed = (p, tt); promised = q }
  write-Runs Q (some e) w inst p q = record { allowed = tt; promised = tt }

  continue-Runs :
      {A B : Type 0} (Q : A → OdooInstance → Type 0) (R : B → OdooInstance → Type 0)
      (ws : List InstanceWrite) (inst : OdooInstance) (r : Error ⊎ A) (f : A → Prog B)
      → Each P ws
      → Holds Q inst r
      → ((a : A) (i : OdooInstance) → Q a i → Runs P R (f a i))
      → Runs P R (continue ws inst r f)
  continue-Runs Q R ws inst (inl e) f h q k = record { allowed = h; promised = tt }
  continue-Runs Q R ws inst (inr a) f h q k = record {
    allowed = Each-append P ws (f a inst).writes h (k a inst q).allowed;
    promised = (k a inst q).promised;
  }

  -- One step after another.
  pub bind-Runs :
      {A B : Type 0} (Q : A → OdooInstance → Type 0) (R : B → OdooInstance → Type 0) (m : Prog A)
      (f : A → Prog B) (inst : OdooInstance)
      → Runs P Q (m inst)
      → ((a : A) (i : OdooInstance) → Q a i → Runs P R (f a i))
      → Runs P R ((m >>= f) inst)
  bind-Runs Q R m f inst h k =
      continue-Runs Q R (m inst).writes (m inst).after (m inst).result f h.allowed h.promised k

  -- The same where the first leaves the instance in memory as it is.
  pub then-Runs :
      {A B : Type 0} (Q : A → Type 0) (R : B → OdooInstance → Type 0) (m : Prog A) (f : A → Prog B)
      (inst : OdooInstance)
      → Runs P (Stays inst Q) (m inst)
      → ((a : A) → Q a → Runs P R (f a inst))
      → Runs P R ((m >>= f) inst)
  then-Runs Q R m f inst h k =
      bind-Runs (Stays inst Q) R m f inst h
        (λ a i q. subst (λ (j : OdooInstance). Runs P R (f a j)) (sym q.1) (k a q.0))

  -- The same where it leaves the instance in memory as another one.
  pub to-Runs :
      {A B : Type 0} (Q : A → Type 0) (R : B → OdooInstance → Type 0) (m : Prog A) (f : A → Prog B)
      (inst j : OdooInstance)
      → Runs P (Stays j Q) (m inst)
      → ((a : A) → Q a → Runs P R (f a j))
      → Runs P R ((m >>= f) inst)
  to-Runs Q R m f inst j h k =
      bind-Runs (Stays j Q) R m f inst h
        (λ a i q. subst (λ (j : OdooInstance). Runs P R (f a j)) (sym q.1) (k a q.0))

  pub set_status-Runs :
      (f : OdooInstanceStatus → OdooInstanceStatus) (Q : Unit {0} → OdooInstance → Type 0)
      (inst : OdooInstance)
      → Q tt (record inst { status = f inst.status })
      → Runs P Q (set_status f inst)
  set_status-Runs f Q inst q = record { allowed = tt; promised = q }
