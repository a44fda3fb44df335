-- ===== src/Conditions/Ready.antt =====
-- What the Ready condition of instanceConditions says after a status write.
use odoo_k8_operator.Base.{
  ℕ, ◌≤ℤ◌, Bool, true, false, refl, sym, subst, ◌∷◌, [], eq_iff, if◌then◌else◌, ◌&&◌, ◌||◌, not,
  ◌==◌, List, ◌≡◌, arith,
}
use odoo_k8_operator.Kube.{Condition}
use odoo_k8_operator.Kube.Meta.{ConditionSet, IsLawful}
use odoo_k8_operator.Api.Reasons.{type_ready}
use odoo_k8_operator.Phases.{
  phase_running, gate_phase_upgrading, phase_initializing, phase_init_failed,
  gate_phase_upgrade_failed,
}
use odoo_k8_operator.Conditions.{set_conditions, new_condition}
use odoo_k8_operator.Conditions.Laws.{distinct}
use odoo_k8_operator.Conditions.Instance.{
  InstanceCondFacts, is_true, healthy, ready_cond, error_conditions, error_reason,
  running_conditions, upgrading_conditions, initializing_conditions, init_failed_conditions,
  upgrade_failed_conditions, rolling_conditions, instance_conditions,
}
use odoo_k8_operator.Conditions.Status.{
  same_bool, first, first_says, first-Tells, IsTold, Tells-IsTold,
}

-- The Deployment exists and has the replicas it wants.
has_replicas : InstanceCondFacts → Bool
has_replicas f = f.deployment_found && (f.desired_replicas ≤ℤ f.ready_replicas)

-- The phases in which no pod of the current revision serves.
is_stopped : InstanceCondFacts → Bool
is_stopped f =
    (f.phase == phase_initializing)
    || ((f.phase == phase_init_failed) || (f.phase == gate_phase_upgrade_failed))

-- An instance serves: no error, and Running or all replicas ready outside the stopped phases.
unfoldable pub serves : InstanceCondFacts → Bool
unfolding has_replicas is_stopped
serves f =
    (f.err_message == "") && ((f.phase == phase_running) || (has_replicas f && not (is_stopped f)))

-- A choice by six tests in turn has what each choice has.
choice {ℓ ℓ'} :
    {A : Type ℓ}
    → (P : A → Type ℓ') (e r u i n g : Bool) (xe xr xu xi xn xg y : A) → (e ≡ true → P xe)
    → (e ≡ false → r ≡ true → P xr)
    → (e ≡ false → r ≡ false → u ≡ true → P xu)
    → (r ≡ false → i ≡ true → P xi)
    → (r ≡ false → n ≡ true → P xn)
    → (r ≡ false → g ≡ true → P xg)
    → (e ≡ false → r ≡ false → i ≡ false → n ≡ false → g ≡ false → P y)
    → P (
        if e
        then xe
        else if r
        then xr
        else if u
        then xu
        else if i
        then xi
        else if n
        then xn
        else if g
        then xg
        else y)
choice P true r u i n g xe xr xu xi xn xg y he hr hu hi hn hg hy = he refl
choice P false true u i n g xe xr xu xi xn xg y he hr hu hi hn hg hy = hr refl refl
choice P false false true i n g xe xr xu xi xn xg y he hr hu hi hn hg hy = hu refl refl refl
choice P false false false true n g xe xr xu xi xn xg y he hr hu hi hn hg hy = hi refl refl
choice P false false false false true g xe xr xu xi xn xg y he hr hu hi hn hg hy = hn refl refl
choice P false false false false false true xe xr xu xi xn xg y he hr hu hi hn hg hy = hg refl refl
choice P false false false false false false xe xr xu xi xn xg y he hr hu hi hn hg hy =
    hy refl refl refl refl refl

-- What each list of conditions that an instance can report has, its report has.
by_phase :
    (P : List Condition → Type 0) (f : InstanceCondFacts)
    → (not (f.err_message == "") ≡ true → P (error_conditions (error_reason f) f.err_message))
    → (not (f.err_message == "") ≡ false
        → (f.phase == phase_running) ≡ true
        → P (running_conditions f))
    → (not (f.err_message == "") ≡ false
        → (f.phase == phase_running) ≡ false
        → (f.phase == gate_phase_upgrading) ≡ true
        → P (upgrading_conditions f))
    → ((f.phase == phase_running) ≡ false
        → (f.phase == phase_initializing) ≡ true
        → P (initializing_conditions f))
    → ((f.phase == phase_running) ≡ false
        → (f.phase == phase_init_failed) ≡ true
        → P (init_failed_conditions f))
    → ((f.phase == phase_running) ≡ false
        → (f.phase == gate_phase_upgrade_failed) ≡ true
        → P (upgrade_failed_conditions f))
    → (not (f.err_message == "") ≡ false
        → (f.phase == phase_running) ≡ false
        → (f.phase == phase_initializing) ≡ false
        → (f.phase == phase_init_failed) ≡ false
        → (f.phase == gate_phase_upgrade_failed) ≡ false
        → P (rolling_conditions f))
    → P (instance_conditions f)
unfolding instance_conditions
by_phase P f =
    choice P (not (f.err_message == "")) (f.phase == phase_running)
      (f.phase == gate_phase_upgrading) (f.phase == phase_initializing)
      (f.phase == phase_init_failed) (f.phase == gate_phase_upgrade_failed)
      (error_conditions (error_reason f) f.err_message) (running_conditions f)
      (upgrading_conditions f) (initializing_conditions f) (init_failed_conditions f)
      (upgrade_failed_conditions f) (rolling_conditions f)

ready_cond-type : (f : InstanceCondFacts) → (ready_cond f).type ≡ type_ready
unfolding ready_cond new_condition
ready_cond-type f = ground arith

ready_cond-status : (f : InstanceCondFacts) → is_true (ready_cond f).status ≡ has_replicas f
unfolding ready_cond has_replicas new_condition
ready_cond-status f = ground arith

upgrading_conditions-distinct : (f : InstanceCondFacts) → distinct (upgrading_conditions f) ≡ true
unfolding upgrading_conditions distinct new_condition healthy
upgrading_conditions-distinct f = rw (ready_cond-type f) refl

rolling_conditions-distinct : (f : InstanceCondFacts) → distinct (rolling_conditions f) ≡ true
unfolding rolling_conditions distinct new_condition healthy
rolling_conditions-distinct f = rw (ready_cond-type f) refl

ready_first-says :
    (c : Condition) (b : Bool)
    → c.type ≡ type_ready
    → is_true c.status ≡ b
    → first_says (c ∷ []) type_ready b ≡ true
unfolding first_says first same_bool
ready_first-says c b hc hb = ground (arith, eq_iff c.type type_ready)

instance_conditions-distinct : (f : InstanceCondFacts) → distinct (instance_conditions f) ≡ true
unfolding distinct error_conditions running_conditions initializing_conditions
    init_failed_conditions upgrade_failed_conditions upgrading_conditions rolling_conditions
instance_conditions-distinct f =
    by_phase (λ cs. distinct cs ≡ true) f (λ _. refl) (λ _ _. refl)
      (λ _ _ _. upgrading_conditions-distinct f) (λ _ _. refl) (λ _ _. refl) (λ _ _. refl)
      (λ _ _ _ _ _. rolling_conditions-distinct f)

-- A first condition of truth value `b` tells whatever has the same truth value.
as_told :
    (cs : List Condition) (b p : Bool)
    → first_says cs type_ready b ≡ true
    → p ≡ b
    → first_says cs type_ready p ≡ true
as_told cs b p h e = subst (λ x. first_says cs type_ready x ≡ true) (sym e) h

upgrading-runs : (f : InstanceCondFacts) → f.phase ≡ gate_phase_upgrading → is_stopped f ≡ false
unfolding is_stopped
upgrading-runs f e = rw e refl

instance_conditions-first :
    (f : InstanceCondFacts) → first_says (instance_conditions f) type_ready (serves f) ≡ true
unfolding first_says first same_bool error_conditions running_conditions initializing_conditions
    init_failed_conditions upgrade_failed_conditions serves has_replicas is_stopped
    upgrading_conditions rolling_conditions new_condition healthy
instance_conditions-first f =
    by_phase (λ cs. first_says cs type_ready (serves f) ≡ true) f
      (λ h.
        as_told (error_conditions (error_reason f) f.err_message) false (serves f) refl
          (ground arith))
      (λ h r. as_told (running_conditions f) true (serves f) refl (ground arith))
      (λ h r u.
        as_told (upgrading_conditions f) (has_replicas f) (serves f)
          (ready_first-says (ready_cond f) (has_replicas f) (ready_cond-type f)
            (ready_cond-status f))
          (ground (arith, upgrading-runs f ((eq_iff f.phase gate_phase_upgrading).0 u))))
      (λ r i. as_told (initializing_conditions f) false (serves f) refl (ground arith))
      (λ r n. as_told (init_failed_conditions f) false (serves f) refl (ground arith))
      (λ r g. as_told (upgrade_failed_conditions f) false (serves f) refl (ground arith))
      (λ h r i n g.
        as_told (rolling_conditions f) (has_replicas f) (serves f)
          (ready_first-says (ready_cond f) (has_replicas f) (ready_cond-type f)
            (ready_cond-status f))
          (ground arith))

pub instance_conditions-IsTold :
    (m : ConditionSet) (law : IsLawful m) (gen : ℕ) (cs : List Condition) (f : InstanceCondFacts)
    → IsTold m (set_conditions m cs gen (instance_conditions f)) type_ready (serves f ≡ true)
instance_conditions-IsTold m law gen cs f =
    Tells-IsTold m law gen cs _ _ (instance_conditions-distinct f)
      (first-Tells _ _ _ (instance_conditions-first f) (λ e. e, λ e. e))
