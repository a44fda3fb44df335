-- ===== src/Queue/Decide.antt =====
-- What decide_start promises: a reference definition of "blocked", mutual exclusion, and progress.
use odoo_k8_operator.Base.{
  true, false, ◌≡◌, ◌⊎◌, ◌↔◌, inl, inr, refl, List, [], ◌∷◌, Memᴰ, ◌<ˢ◌, ◌<◌, ◌&&◌, arith, eq_iff,
  ◌≢◌, Bool-cases,
}
use odoo_k8_operator.Queue.{
  Queued, older, is_sibling, blocks, decide_start, phase_pending, phase_running,
}

module _ {ℓ} {A : Type ℓ} ⦃q : Queued A⦄ where
  -- `o` came first: it is older, or as old with the smaller name.
  abbrev pub Precedes : A → A → Type 0
  Precedes o c =
      (q.created o < q.created c) ⊎ ((q.created o ≡ q.created c) × ((q.name o <ˢ q.name c) ≡ true))

  -- `o` is waiting to start.
  abbrev pub IsWaiting : A → Type 0
  IsWaiting o = (q.phase o ≡ "") ⊎ (q.phase o ≡ phase_pending)

  -- Why `o` keeps `c` from starting.
  pub record Blocks (c o : A) : Type 0 where
    pub other_name : q.name o ≢ q.name c
    pub same_instance : q.instance_name o ≡ q.instance_name c
    pub takes_part : q.scheduled o ≡ false
    pub in_the_way : (q.phase o ≡ phase_running) ⊎ (IsWaiting o × Precedes o c)

  pub older-Precedes : (o c : A) → older o c ≡ true → Precedes o c
  unfolding older
  older-Precedes o c h = ground arith

  pub Precedes-older : (o c : A) → Precedes o c → older o c ≡ true
  unfolding older
  Precedes-older o c h = ground arith

  blocks_sound : (c o : A) → is_sibling c o ≡ true → blocks c o ≡ true → Blocks c o
  unfolding is_sibling blocks
  blocks_sound c o s b = ground (
    arith,
    eq_iff (q.name o) (q.name c),
    eq_iff (q.instance_name o) (q.instance_name c),
    eq_iff (q.phase o) phase_running,
    eq_iff (q.phase o) phase_pending,
    eq_iff (q.phase o) "",
  )

  blocks_complete : (c o : A) → Blocks c o → (is_sibling c o ≡ true) × (blocks c o ≡ true)
  unfolding is_sibling blocks
  blocks_complete c o h = ground (
    arith,
    eq_iff (q.name o) (q.name c),
    eq_iff (q.instance_name o) (q.instance_name c),
    eq_iff (q.phase o) phase_running,
    eq_iff (q.phase o) phase_pending,
    eq_iff (q.phase o) "",
  )

  may_start_none :
      (c : A) (all : List A)
      → (decide_start c all).may_start ≡ true
      → (o : A) → Memᴰ o all
      → (is_sibling c o && blocks c o) ≡ false
  unfolding decide_start
  may_start_none c [] h o i = elim i [ ]
  may_start_none c (x ∷ xs) h o (Memᴰ.head e) = ground arith
  may_start_none c (x ∷ xs) h o (Memᴰ.tail i) = may_start_none c xs (ground arith) o i

  none_may_start :
      (c : A) (all : List A)
      → ((o : A) → Memᴰ o all → (is_sibling c o && blocks c o) ≡ false)
      → (decide_start c all).may_start ≡ true
  unfolding decide_start
  none_may_start c [] h = refl
  none_may_start c (x ∷ xs) h =
      ground (arith, none_may_start c xs (λ o i. h o (Memᴰ.tail i)), h x (Memᴰ.head refl))

  pub blocker :
      (c : A) (all : List A)
      → (decide_start c all).may_start ≡ false
      → (o : A) × Memᴰ o all
        × (q.name o ≡ (decide_start c all).blocked_by)
        × (is_sibling c o ≡ true)
        × (blocks c o ≡ true)
  unfolding decide_start
  blocker c [] h = cc
  blocker c (x ∷ xs) h = elim (Bool-cases (is_sibling c x && blocks c x)) [
    | inl e ↦ (x, Memᴰ.head refl, ground arith, ground arith, ground arith)
    | inr e ↦
        let (o, i, n, s, b) = blocker c xs (ground arith) in (o, Memᴰ.tail i, ground arith, s, b)
  ]

  not_both : (c o : A) → ¬ (Blocks c o) → (is_sibling c o && blocks c o) ≡ false
  not_both c o h = elim (Bool-cases (is_sibling c o && blocks c o)) [
    | inl e ↦ absurd (h (blocks_sound c o (ground arith) (ground arith)))
    | inr e ↦ e
  ]

  pub may_start_iff :
      (c : A) (all : List A)
      → ((decide_start c all).may_start ≡ true) ↔ ((o : A) → Memᴰ o all → ¬ (Blocks c o))
  may_start_iff c all = (
    λ h o i b. ground (arith, may_start_none c all h o i, blocks_complete c o b),
    λ h. none_may_start c all (λ o i. not_both c o (h o i)),
  )

  blocked_by-Blocks :
      (c : A) (all : List A)
      → (decide_start c all).may_start ≡ false
      → (o : A) × Memᴰ o all × (q.name o ≡ (decide_start c all).blocked_by) × Blocks c o
  blocked_by-Blocks c all h =
      let (o, i, n, s, b) = blocker c all h in (o, i, n, blocks_sound c o s b)

  -- A candidate may start, and then no object of the list blocks it: no other object of its instance
  -- that takes part is Running, and none that waits precedes it by creation time, then name. Or it may
  -- not start, and then the decision names an object of the list that blocks it.
  pub decide_start-Decides :
      (c : A) (all : List A)
      → (((decide_start c all).may_start ≡ true) × ((o : A) → Memᴰ o all → ¬ (Blocks c o)))
        ⊎ (((decide_start c all).may_start ≡ false)
            × ((o : A) × Memᴰ o all × (q.name o ≡ (decide_start c all).blocked_by) × Blocks c o))
  decide_start-Decides c all = elim (Bool-cases (decide_start c all).may_start) [
    | inl e ↦ inl (e, (may_start_iff c all).0 e)
    | inr e ↦ inr (e, blocked_by-Blocks c all e)
  ]
