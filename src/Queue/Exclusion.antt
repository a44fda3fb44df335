-- ===== src/Queue/Exclusion.antt =====
-- One line to an instance: at most one waiting object may start, and one may if none is Running.
use odoo_k8_operator.Base.{
  String, Bool, true, false, ◌≡◌, ◌∙◌, ◌⊎◌, ◌↔◌, inl, inr, refl, List, [], ◌∷◌, Memᴰ, ◌==◌, ◌&&◌,
  ◌||◌, not, arith, eq_iff, ◌≢◌, Bool-cases, subst, sym,
}
use odoo_k8_operator.Queue.{Queued, older, decide_start, phase_pending, phase_running}
use odoo_k8_operator.Queue.Order.{not-older_self, older_total, older_trans}
use odoo_k8_operator.Queue.Decide.{Blocks, Precedes-older, IsWaiting, older-Precedes, may_start_iff}

module _ {ℓ} {A : Type ℓ} ⦃q : Queued A⦄ where
  -- What waits in the line of an instance.
  pub record Waits (instance_name : String) (o : A) : Type 0 where
    pub of_instance : q.instance_name o ≡ instance_name
    pub takes_part : q.scheduled o ≡ false
    pub waiting : IsWaiting o

  not-Blocks_if_may_start :
      (c o : A) (all : List A) → Memᴰ o all → (decide_start c all).may_start ≡ true → ¬ (Blocks c o)
  not-Blocks_if_may_start c o all i h b = (may_start_iff c all).0 h o i b

  older-Blocks :
      {n : String} (a b : A)
      → Waits n a
      → Waits n b
      → q.name a ≢ q.name b
      → older a b ≡ true
      → Blocks b a
  older-Blocks a b wa wb d h = record {
    other_name = d;
    same_instance = wa.of_instance ∙ sym wb.of_instance;
    takes_part = wa.takes_part;
    in_the_way = inr (wa.waiting, older-Precedes a b h);
  }

  -- Of two objects with different names that wait for one instance, at most one may start.
  pub start_exclusive :
      (n : String) (a b : A) (all : List A)
      → Memᴰ a all
      → Memᴰ b all
      → Waits n a
      → Waits n b
      → q.name a ≢ q.name b
      → (decide_start a all).may_start ≡ true
      → (decide_start b all).may_start ≡ false
  start_exclusive n a b all ia ib wa wb d h = elim (Bool-cases (decide_start b all).may_start) [
    | inr e ↦ e
    | inl e ↦ elim (older_total a b (ground (arith, eq_iff (q.name a) (q.name b)))) [
      | inl o ↦ absurd (not-Blocks_if_may_start b a all ia e (older-Blocks a b wa wb d o))
      | inr o ↦
          absurd (not-Blocks_if_may_start a b all ib h (older-Blocks b a wb wa (λ p. d (sym p)) o))
    ]
  ]

  abbrev waits : String → A → Bool
  waits n o =
      (q.instance_name o == n)
      && not (q.scheduled o)
      && (q.phase o == "" || q.phase o == phase_pending)

  waits_iff : (n : String) (o : A) → (waits n o ≡ true) ↔ Waits n o
  waits_iff n o =
      ground (
        arith,
        eq_iff (q.instance_name o) n,
        eq_iff (q.phase o) phase_pending,
        eq_iff (q.phase o) "",
      )

  -- The front of a line: it waits, and nothing that waits is older.
  abbrev IsFront : String → A → List A → Type ℓ
  IsFront n m all =
      Memᴰ m all
      × (waits n m ≡ true)
      × ((o : A) → Memᴰ o all → waits n o ≡ true → older o m ≡ false)

  module _ (n : String) (x m : A) (xs : List A) where
    newcomer-least :
        ((o : A) → Memᴰ o xs → waits n o ≡ true → older o m ≡ false)
        → older x m ≡ true
        → (o : A) → Memᴰ o (x ∷ xs)
        → waits n o ≡ true
        → older o x ≡ false
    newcomer-least least h o (Memᴰ.head e) w =
        subst (λ y. older y x ≡ false) (sym e) (not-older_self x)
    newcomer-least least h o (Memᴰ.tail i) w = ground (arith, least o i w, older_trans o x m)

    front-least :
        ((o : A) → Memᴰ o xs → waits n o ≡ true → older o m ≡ false)
        → (waits n x && older x m) ≡ false
        → (o : A) → Memᴰ o (x ∷ xs)
        → waits n o ≡ true
        → older o m ≡ false
    front-least least h o (Memᴰ.head e) w =
        let w' : waits n x ≡ true = subst (λ y. waits n y ≡ true) e w in
        subst (λ y. older y m ≡ false) (sym e) (ground arith)
    front-least least h o (Memᴰ.tail i) w = least o i w

    IsFront-cons : IsFront n m xs → (f : A) × IsFront n f (x ∷ xs)
    IsFront-cons (i, w, least) = elim (Bool-cases (waits n x && older x m)) [
      | inl e ↦ (x, (Memᴰ.head refl, ground arith, newcomer-least least (ground arith)))
      | inr e ↦ (m, (Memᴰ.tail i, w, front-least least e))
    ]

    front-first :
        ((o : A) → Memᴰ o xs → waits n o ≡ false)
        → waits n x ≡ true
        → (o : A) → Memᴰ o (x ∷ xs)
        → waits n o ≡ true
        → older o x ≡ false
    front-first none h o (Memᴰ.head e) w = subst (λ y. older y x ≡ false) (sym e) (not-older_self x)
    front-first none h o (Memᴰ.tail i) w = ground (arith, none o i)

    idle-cons :
        ((o : A) → Memᴰ o xs → waits n o ≡ false)
        → waits n x ≡ false
        → (o : A) → Memᴰ o (x ∷ xs)
        → waits n o ≡ false
    idle-cons none h o (Memᴰ.head e) = subst (λ y. waits n y ≡ false) (sym e) h
    idle-cons none h o (Memᴰ.tail i) = none o i

  -- A line has a front, or nothing waits in it.
  IsFront-or_idle :
      (n : String) (all : List A)
      → ((m : A) × IsFront n m all) ⊎ ((o : A) → Memᴰ o all → waits n o ≡ false)
  IsFront-or_idle n [] = inr (λ o i. elim i [ ])
  IsFront-or_idle n (x ∷ xs) = elim (IsFront-or_idle n xs) [
    | inl (m, f) ↦ inl (IsFront-cons n x m xs f)
    | inr none ↦ elim (Bool-cases (waits n x)) [
      | inl w ↦ inl (x, (Memᴰ.head refl, w, front-first n x x xs none w))
      | inr w ↦ inr (idle-cons n x x xs none w)
    ]
  ]

  front-not-Blocks :
      (n : String) (m o : A) (all : List A)
      → IsFront n m all
      → Memᴰ o all
      → (q.instance_name o ≡ n → q.phase o ≢ phase_running)
      → ¬ (Blocks m o)
  front-not-Blocks n m o all (i, w, least) io idle b =
      let wm = (waits_iff n m).0 w in
      let same : q.instance_name o ≡ n = b.same_instance ∙ wm.of_instance in
      elim b.in_the_way [
        | inl running ↦ idle same running
        | inr (waiting, first) ↦ ground (
          arith,
          Precedes-older o m first,
          least o io (
              (waits_iff n o).1
                (record { of_instance = same; takes_part = b.takes_part; waiting = waiting })),
        )
      ]

  -- Where nothing of an instance is Running and something waits for it, a waiting object may start.
  pub front_may_start :
      (n : String) (all : List A) (a : A)
      → Memᴰ a all
      → Waits n a
      → ((o : A) → Memᴰ o all → q.instance_name o ≡ n → q.phase o ≢ phase_running)
      → (m : A) × Memᴰ m all × Waits n m × ((decide_start m all).may_start ≡ true)
  front_may_start n all a i w idle = elim (IsFront-or_idle n all) [
    | inr none ↦ absurd (ground (arith, none a i, (waits_iff n a).1 w))
    | inl (m, f) ↦ (
      m,
      f.0,
      (waits_iff n m).0 f.1,
      (may_start_iff m all).1 (λ o io. front-not-Blocks n m o all f io (idle o io)),
    )
  ]
