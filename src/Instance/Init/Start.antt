-- ===== src/Instance/Init/Start.antt =====
-- Every pass of decideInitialization is safe.
use odoo_k8_operator.Base.{
  ℕ, ◌<◌, Bool, true, false, ◌&&◌, not, ◌==◌, is_some, if◌then◌else◌, Option, none, some, ◌≡◌, inl,
  inr, refl, sym, ◌∙◌, ap, arith, Option-cases, subst,
}
use odoo_k8_operator.Kube.{Reply, got, refused}
use odoo_k8_operator.Kube.Retry.{is_not_found}
use odoo_k8_operator.Errors.{Error}
use odoo_k8_operator.Api.{OdooUpgrade}
use odoo_k8_operator.Api.Instance.{OdooInstance, InitializeSpec}
use odoo_k8_operator.Phases.{upgrade_phase_succeeded}
use odoo_k8_operator.Names.{init_upgrade_name}
use odoo_k8_operator.Instance.Gate.{create_error}
use odoo_k8_operator.Instance.Init.Laws.{already, by_upgrade, adopted, init_decide-IsInitDecision}
use odoo_k8_operator.Instance.Init.{
  InitInput, InitDecision, InitReads, InitPass, init_decide, init_new_upgrade, check_init_secret,
  init_create, init_ensure, init_apply, init_read_upgrade, init_read, init_input,
  decide_initialization,
}
use odoo_k8_operator.Instance.Init.Allowed.{
  InitSucceeded, IsMissing, is_init_phase, init_decide-phase, IsSafe, Applied, check_secret-none,
  not_initialized,
}

module _ (inst : OdooInstance) (r : InitReads) where
  create-Applied :
      (i : InitInput) (s : InitializeSpec)
      → inst.spec.initialize ≡ some s
      → (init_decide i).ensure_upgrade ≡ true
      → Applied inst r i (init_create inst r (init_decide i) s)
  unfolding init_create
  create-Applied i s is e =
      let created = create_error (init_decide i).upgrade_name r.set_owner r.create in
      elim (Option-cases (check_init_secret inst s r.secret)) [
        | inr (x, n) ↦ record { decided = λ d h. ground arith; asked = λ new h. ground arith }
        | inl n ↦ elim (Option-cases created) [
          | inl c ↦ record {
            decided = λ d h. ground arith;
            asked = λ new h. (e, check_secret-none inst s r.secret n, s, is, ground arith);
          }
          | inr (x, c) ↦ record {
            decided = λ d h. ground arith;
            asked = λ new h. (e, check_secret-none inst s r.secret n, s, is, ground arith);
          }
        ]
      ]

  plain-Applied :
      (i : InitInput)
      → Applied inst r i (record { decision = some (init_decide i); asked = none; error = none })
  plain-Applied i = record { decided = λ d h. ground arith; asked = λ new h. ground arith }

  if-Applied :
      (i : InitInput) (b : Bool) (p q : InitPass)
      → (b ≡ true → Applied inst r i p)
      → Applied inst r i q
      → Applied inst r i (if b then p else q)
  if-Applied i true p q f g = f refl
  if-Applied i false p q f g = g

  ensure-Applied :
      (i : InitInput) (o : Option InitializeSpec)
      → inst.spec.initialize ≡ o
      → Applied inst r i (init_ensure inst r (init_decide i) o)
  unfolding init_ensure
  ensure-Applied i none s = plain-Applied i
  ensure-Applied i (some x) s =
      if-Applied i (init_decide i).ensure_upgrade _ _ (λ e. create-Applied i x s e)
        (plain-Applied i)

  -- The facts of a pass, and what they rest on.
  record Facts (i : InitInput) : Type 0 where
    of_initialized : i.initialized ≡ inst.status.initialized
    of_name : i.upgrade_name ≡ init_upgrade_name inst.meta.name
    seen :
        i.upgrade_exists ≡ true → i.upgrade_phase ≡ upgrade_phase_succeeded → InitSucceeded inst r
    unseen : i.requested ≡ true → i.initialized ≡ false → i.upgrade_exists ≡ false → IsMissing r
    alive : 0 < i.live_replicas → r.deployment ≡ got i.live_replicas
    adopts : 0 < i.live_replicas → i.upgrade_exists ≡ false → IsMissing r
    present :
        (live : ℕ)
        → i.requested ≡ true
        → i.initialized ≡ false
        → r.deployment ≡ got live
        → i.live_replicas ≡ live
    absent : IsMissing r → i.upgrade_exists ≡ false

  apply-IsSafe : (i : InitInput) → Facts i → IsSafe inst r (init_apply inst r i)
  unfolding init_apply
  apply-IsSafe i f =
      let a = ensure-Applied i inst.spec.initialize refl in
      let g = init_decide-IsInitDecision i in
      record {
        stays = λ d h e.
            subst (λ (x : InitDecision). (x.initialized ≡ true) × (x.pending ≡ false))
              (sym (a.decided d h)) (g.stays (f.of_initialized ∙ e));
        justified = λ d h e.
            elim (g.justified
              (ap (λ (x : InitDecision). x.initialized) (sym (a.decided d h)) ∙ e)) [
                | already e' ↦ inl (sym f.of_initialized ∙ e')
                | by_upgrade x p ↦ inr (inl (f.seen x p))
                | adopted x l ↦ inr (inr (f.adopts l x, i.live_replicas, f.alive l, l))
              ];
        holds = λ d live h e m at.
            let (q, n, o) =
              g.holds (ap (λ (x : InitDecision). x.pending) (sym (a.decided d h)) ∙ e) in
            ground (arith, f.present live q n at, f.absent m);
        phased = λ d h e.
            subst (λ (x : InitDecision). is_init_phase x.phase ≡ true) (sym (a.decided d h))
              (init_decide-phase i
                (ap (λ (x : InitDecision). x.pending) (sym (a.decided d h)) ∙ e));
        asks = λ new h.
            let (e, secret, s, is, same) = a.asked new h in
            let (q, x, name) = g.ensures e in
            record {
              spec = s;
              spec_set = is;
              secret = secret;
              missing = f.unseen q (not_initialized i e) x;
              as_asked = same ∙ ap (init_new_upgrade inst s) (name ∙ f.of_name);
            };
      }

  stop-IsSafe :
      (e : Error) → IsSafe inst r (record { decision = none; asked = none; error = some e })
  stop-IsSafe e = record {
    stays = λ d h i. ground arith;
    justified = λ d h i. ground arith;
    holds = λ d n h p m at. ground arith;
    asks = λ n h. ground arith;
    phased = λ d h e. ground arith;
  }

  if-IsSafe :
      (b : Bool) (p q : InitPass)
      → (b ≡ true → IsSafe inst r p)
      → (b ≡ false → IsSafe inst r q)
      → IsSafe inst r (if b then p else q)
  if-IsSafe true p q f g = f refl
  if-IsSafe false p q f g = g refl

  read_upgrade-IsSafe :
      (live : ℕ) (reply : Reply OdooUpgrade)
      → r.upgrade ≡ reply
      → (0 < live → r.deployment ≡ got live)
      → ((n : ℕ) → r.deployment ≡ got n → live ≡ n)
      → IsSafe inst r
          (init_read_upgrade inst r (record (init_input inst) { live_replicas = live }) reply)
  unfolding init_read_upgrade init_input
  read_upgrade-IsSafe live (refused e) read alive present =
      if-IsSafe (is_not_found e) _ _
        (λ missing.
          let m : IsMissing r = record { error = e; was_read = read; missing = missing } in
          apply-IsSafe (record (init_input inst) { live_replicas = live })
            (record {
              of_initialized = refl;
              of_name = refl;
              seen = λ x p. ground arith;
              unseen = λ q n x. m;
              alive = alive;
              adopts = λ l x. m;
              present = λ n q x at. present n at;
              absent = λ m'. refl;
            }))
        (λ h. stop-IsSafe _)
  read_upgrade-IsSafe live (got up) read alive present =
      if-IsSafe (not (up.spec.instance_ref.name == inst.meta.name)) _ _ (λ h. stop-IsSafe _)
        (λ h.
          apply-IsSafe
            (record (init_input inst) {
              live_replicas = live;
              upgrade_exists = true;
              upgrade_phase = up.status.phase;
              upgrade_message = up.status.message;
            })
            (record {
              of_initialized = refl;
              of_name = refl;
              seen = λ x p. record {
                upgrade = up;
                was_read = read;
                of_instance = ground arith;
                succeeded = p;
              };
              unseen = λ q n x. ground arith;
              alive = alive;
              adopts = λ l x. ground arith;
              present = λ n q x at. present n at;
              absent = λ m. ground (arith, m.was_read);
            }))

  read-IsSafe :
      (reply : Reply ℕ)
      → r.deployment ≡ reply
      → IsSafe inst r (init_read inst r (init_input inst) reply)
  unfolding init_read init_input
  read-IsSafe (got live) read =
      read_upgrade-IsSafe live r.upgrade refl (λ l. read) (λ n at. ground (arith, at, read))
  read-IsSafe (refused e) read =
      if-IsSafe (is_not_found e) _ _
        (λ h.
          read_upgrade-IsSafe 0 r.upgrade refl (λ l. ground arith)
            (λ n at. ground (arith, at, read)))
        (λ h. stop-IsSafe _)

  -- Whatever a pass of the initialisation reads: a database that was initialised stays so, and its
  -- pods are not held back; one is newly taken as initialised only when the pass read that the
  -- instance's initialisation OdooUpgrade Succeeded, or that there is none and pods are ready; pods
  -- that are ready while there is none are never held back; and the pass asks for an OdooUpgrade, the
  -- one of spec.initialize, only where it read that there is none and that the Secret is there.
  pub decide_initialization-IsSafe : IsSafe inst r (decide_initialization inst r)
  unfolding decide_initialization init_input
  decide_initialization-IsSafe =
      if-IsSafe (is_some inst.spec.initialize && not inst.status.initialized) _ _
        (λ h. read-IsSafe r.deployment refl)
        (λ h. apply-IsSafe (init_input inst) (record {
          of_initialized = refl;
          of_name = refl;
          seen = λ x p. ground arith;
          unseen = λ q n x. ground arith;
          alive = λ l. ground arith;
          adopts = λ l x. ground arith;
          present = λ live q n at. ground arith;
          absent = λ m. refl;
        }))
