-- ===== src/Instance/Watch/Unwatched.antt =====
-- A change that makes no pass run would not have changed what the pass does: the watches of
-- SetupWithManager and reconcileOdooInstance of internal/controller/odooinstance_controller.go.
use mathlib.Core.List.Memᴰ
use odoo_k8_operator.Base.{
  Option, none, some, String, Bool, true, false, not, ◌==◌, if◌then◌else◌, List, [], ◌∷◌, ◌++◌,
  Memᴰ, ◌≡◌, ◌≢◌, refl, sym, subst, ◌∙◌, ap, ◌⊎◌, inl, inr, arith, Bool-cases, eq_iff, all,
}
use odoo_k8_operator.Kube.{ApiError, Reply, got}
use odoo_k8_operator.Api.{OdooAddon}
use odoo_k8_operator.Api.Instance.{OdooInstance, InitializeSpec}
use odoo_k8_operator.Instance.Addons.{SecretData, filter_ready_addons}
use odoo_k8_operator.Instance.Pass.{InstanceReads, InstanceTools, pure}
use odoo_k8_operator.Instance.Parts.Steps.{
  referenced_secret, referenced_secrets, ready_addons_of, list_ready_addons, rendered,
  reconcile_config_map, initialization, gating, rolling, holding, reconcile_deployment,
  reconcile_pdb, delete_pdb_if_owned, budget_read, reconcile_service,
}
use odoo_k8_operator.Instance.Reconcile.{
  reconcile_odoo_instance, roll_out, settle, settled, final_status,
}
use odoo_k8_operator.Instance.Storage.{
  reconcile_pvc, reconcile_single_pvc, single_pvc, claim_size, create_claim, owners_for,
  sync_pvc_ownership,
}
use odoo_k8_operator.Instance.Cron.{
  reconcile_cron, delete_read, delete_cron_deployment, reconcile_cron_deployment, cron_off, cron_on,
}
use odoo_k8_operator.Instance.Watch.{
  Request, request_for, uses_secret, requests_using, instances_using_secret, addon_requests,
  all_addon_requests,
}

first-Mem :
    (b : Bool) (r q : Request) (rest : List Request)
    → b ≡ true
    → r ≡ q
    → Memᴰ r (if b then q ∷ rest else rest)
first-Mem true r q rest h e = Memᴰ.head e
first-Mem false r q rest h e = absurd (ground arith)

later-Mem :
    (b : Bool) (r q : Request) (rest : List Request)
    → Memᴰ r rest
    → Memᴰ r (if b then q ∷ rest else rest)
later-Mem true r q rest m = Memᴰ.tail m
later-Mem false r q rest m = m

using-Mem :
    (secret : String) (inst : OdooInstance) (insts : List OdooInstance)
    → uses_secret secret inst ≡ true
    → Memᴰ inst insts
    → Memᴰ (request_for inst) (requests_using secret insts)
unfolding requests_using
using-Mem secret inst [] uses m = elim m [ ]
using-Mem secret inst (i ∷ is') uses (Memᴰ.head e) =
    first-Mem (uses_secret secret i) (request_for inst) (request_for i) (requests_using secret is')
      (ap (uses_secret secret) (sym e) ∙ uses) (ap request_for e)
using-Mem secret inst (i ∷ is') uses (Memᴰ.tail m) =
    later-Mem (uses_secret secret i) (request_for inst) (request_for i) (requests_using secret is')
      (using-Mem secret inst is' uses m)

-- The Secret of the first login, which checkInitSecret reads.
abbrev pub names_login : String → Option InitializeSpec → Bool
names_login secret none = false
names_login secret (some spec) = spec.admin_user_password_secret == secret

-- An addon that a list of ready addons may hold.
abbrev refers : String → OdooAddon → Bool
refers name addon = addon.spec.instance_ref.name == name

all-append :
    (p : OdooAddon → Bool) (xs ys : List OdooAddon)
    → all p (xs ++ ys) ≡ true
    → (all p xs ≡ true) × (all p ys ≡ true)
all-append p [] ys h = (refl, h)
all-append p (x ∷ xs) ys h = let (a, b) = all-append p xs ys (ground arith) in (ground arith, b)

keep_between :
    (name : String) (before xs after : List OdooAddon)
    → all (λ a. not (refers name a)) xs ≡ true
    → filter_ready_addons (before ++ (xs ++ after)) name
      ≡ filter_ready_addons (before ++ after) name
unfolding filter_ready_addons
keep_between name [] [] after h = refl
keep_between name [] (x ∷ xs) after h =
    let rest = keep_between name [] xs after (ground arith) in ground arith
keep_between name (b ∷ before) xs after h =
    let rest = keep_between name before xs after h in ground arith

own_request :
    (inst : OdooInstance) (x : OdooAddon)
    → (inst.meta.name == "") ≡ false
    → x.meta.namespace ≡ inst.meta.namespace
    → x.spec.instance_ref.name ≡ inst.meta.name
    → addon_requests x ≡ request_for inst ∷ []
unfolding addon_requests
own_request inst x named here refers_to = rw here (rw refers_to (rw named refl))

addon-Mem :
    (inst : OdooInstance) (xs : List OdooAddon)
    → (inst.meta.name == "") ≡ false
    → all (λ a. a.meta.namespace == inst.meta.namespace) xs ≡ true
    → all (λ a. not (refers inst.meta.name a)) xs ≡ false
    → Memᴰ (request_for inst) (all_addon_requests xs)
unfolding all_addon_requests
addon-Mem inst [] named here some_refers = absurd (ground arith)
addon-Mem inst (x ∷ xs) named here some_refers = elim (Bool-cases (refers inst.meta.name x)) [
  | inl h ↦ Memᴰ.append_left (all_addon_requests xs) (
      subst (Memᴰ (request_for inst))
        (sym (
          own_request inst x named (ground (arith, eq_iff x.meta.namespace inst.meta.namespace))
            (ground (arith, eq_iff x.spec.instance_ref.name inst.meta.name))))
        (Memᴰ.head refl))
  | inr h ↦
      Memᴰ.append_right (addon_requests x) (addon-Mem inst xs named (ground arith) (ground arith))
]

module _ (t : InstanceTools) (r : InstanceReads) (inst : OdooInstance) where
  secret_same :
      (reads : InstanceReads) (field name secret : String)
      → ((m : String) → m ≢ secret → r.secret m ≡ reads.secret m)
      → (name == secret) ≡ false
      → referenced_secret t reads inst field name ≡ referenced_secret t r inst field name
  unfolding referenced_secret
  secret_same reads field name secret others ne =
      rw⁻¹ (others name (λ e. ground (arith, eq_iff name secret))) refl

  secrets_same :
      (reads : InstanceReads) (secret : String)
      → ((m : String) → m ≢ secret → r.secret m ≡ reads.secret m)
      → uses_secret secret inst ≡ false
      → referenced_secrets t reads inst ≡ referenced_secrets t r inst
  unfolding referenced_secrets
  secrets_same reads secret others unused =
      rw
        (secret_same reads "spec.postgres.passwordSecret" inst.spec.postgres.password_secret secret
          others (ground arith))
        (rw
          (secret_same reads "spec.adminPasswordSecret" inst.spec.admin_password_secret secret
            others (ground arith))
          refl)

  addons_same :
      (reads : InstanceReads) (before old new after : List OdooAddon)
      → r.addons ≡ got (before ++ (old ++ after))
      → reads.addons ≡ got (before ++ (new ++ after))
      → all (λ a. not (refers inst.meta.name a)) old ≡ true
      → all (λ a. not (refers inst.meta.name a)) new ≡ true
      → list_ready_addons t reads inst ≡ list_ready_addons t r inst
  unfolding list_ready_addons ready_addons_of
  addons_same reads before old new after was is no_old no_new =
      ap (ready_addons_of t reads inst) is
      ∙ ap pure (
          keep_between inst.meta.name before new after no_new
          ∙ sym (keep_between inst.meta.name before old after no_old))
      ∙ ap (ready_addons_of t r inst) (sym was)

  -- The answers after that, with the one to the Get of the Secret for the first login, and after some addons took the place of others.
  abbrev pub changed :
      (String → Reply SecretData) → Option ApiError → List OdooAddon → InstanceReads
  changed secrets login addons = record r {
    secret = secrets;
    init = record r.init { secret = login };
    addons = got addons;
  }

  pass_same :
      (secrets : String → Reply SecretData) (addons : List OdooAddon)
      → referenced_secrets t (changed secrets r.init.secret addons) inst
        ≡ referenced_secrets t r inst
      → list_ready_addons t (changed secrets r.init.secret addons) inst ≡ list_ready_addons t r inst
      → reconcile_odoo_instance t (changed secrets r.init.secret addons) inst
        ≡ reconcile_odoo_instance t r inst
  unfolding reconcile_odoo_instance reconcile_pvc reconcile_single_pvc single_pvc claim_size
      create_claim owners_for sync_pvc_ownership rendered reconcile_config_map initialization gating
      rolling holding roll_out settle settled final_status reconcile_deployment reconcile_pdb
      delete_pdb_if_owned budget_read reconcile_service reconcile_cron delete_read
      delete_cron_deployment reconcile_cron_deployment cron_off cron_on
  pass_same secrets addons e f = rw e (rw f refl)

  -- If one Secret of the instance's namespace changes in any way, and some of the OdooAddons that are
  -- listed there are changed, added or taken away, then a pass over the instance (which has a name and
  -- is listed) does what it would have done before, all answers being the same but those to the Gets
  -- of that Secret and the list of addons; or the changes make a pass over it run: instancesUsingSecret
  -- names it for the Secret, or the watch of OdooAddons for an addon as it was or as it is; or the
  -- Secret is the one that spec.initialize.adminUserPasswordSecret names, which is not watched.
  pub unwatched-same :
      (insts : List OdooInstance)
      → Memᴰ inst insts
      → (inst.meta.name == "") ≡ false
      → (secret : String) (secrets : String → Reply SecretData) (login : Option ApiError)
      → ((m : String) → m ≢ secret → r.secret m ≡ secrets m)
      → (names_login secret inst.spec.initialize ≡ false → login ≡ r.init.secret)
      → (before old new after : List OdooAddon) → r.addons ≡ got (before ++ (old ++ after))
      → all (λ a. a.meta.namespace == inst.meta.namespace) (old ++ new) ≡ true
      → (reconcile_odoo_instance t (changed secrets login (before ++ (new ++ after))) inst
          ≡ reconcile_odoo_instance t r inst)
        ⊎ (Memᴰ
              (request_for inst)
              (instances_using_secret secret (got insts) ++ all_addon_requests (old ++ new))
            ⊎ (names_login secret inst.spec.initialize ≡ true))
  unfolding instances_using_secret
  unwatched-same insts listed named secret secrets login others same_login before old new after was
        here =
      let requests = all_addon_requests (old ++ new) in
      let addons = before ++ (new ++ after) in
      elim (Bool-cases (uses_secret secret inst)) [
        | inl used ↦ inr (inl (Memᴰ.append_left requests (using-Mem secret inst insts used listed)))
        | inr unused ↦ elim (Bool-cases (all (λ a. not (refers inst.meta.name a)) (old ++ new))) [
          | inr some_refers ↦ inr (
              inl (
                Memᴰ.append_right (requests_using secret insts)
                  (addon-Mem inst (old ++ new) named here some_refers)))
          | inl none_refer ↦
              let (no_old, no_new) =
                all-append (λ a. not (refers inst.meta.name a)) old new none_refer in
              elim (Bool-cases (names_login secret inst.spec.initialize)) [
                | inl is_login ↦ inr (inr is_login)
                | inr other ↦ inl (
                    subst
                      (λ l.
                        reconcile_odoo_instance t (changed secrets l addons) inst
                        ≡ reconcile_odoo_instance t r inst)
                      (sym (same_login other))
                      (pass_same secrets addons
                        (secrets_same (changed secrets r.init.secret addons) secret others unused)
                        (addons_same (changed secrets r.init.secret addons) before old new after was
                          refl no_old no_new)))
              ]
        ]
      ]
