-- ===== src/Conditions/Laws.antt =====
-- How a status write merges its conditions (setConditions).
use mathlib.Core.List.Memᴰ
use odoo_k8_operator.Base.{
  ℕ, String, Bool, true, false, ◌&&◌, not, ◌==◌, List, [], ◌∷◌, Memᴰ, some, ◌≡◌, inl, inr, refl,
  sym, ◌∙◌, ap, subst, arith, any,
}
use odoo_k8_operator.Kube.{Condition}
use odoo_k8_operator.Kube.Meta.{ConditionSet, SameFacts, IsLawful}
use odoo_k8_operator.Conditions.{set_conditions}

abbrev pub has_type : String → List Condition → Bool
has_type t cs = any (λ (c : Condition). c.type == t) cs

-- No two conditions have one type.
unfoldable pub distinct : List Condition → Bool
distinct [] = true
distinct (c ∷ cs) = not (has_type c.type cs) && distinct cs

-- The condition as setConditions stores it.
abbrev pub at_generation : ℕ → Condition → Condition
at_generation gen c = record c { observed_generation = gen }

module _ (m : ConditionSet) (law : IsLawful m) (gen : ℕ) where
  find-set_conditions_ne :
      (cs want : List Condition) (t : String)
      → has_type t want ≡ false
      → m.find (set_conditions m cs gen want) t ≡ m.find cs t
  unfolding set_conditions
  find-set_conditions_ne cs [] t h = refl
  find-set_conditions_ne cs (c ∷ want) t h =
      find-set_conditions_ne (m.set cs (at_generation gen c)) want t (ground arith)
      ∙ law.find-set_ne cs (at_generation gen c) t (ground arith)

  -- A condition that the merged list holds.
  pub record Holds (cs : List Condition) (c : Condition) : Type 0 where
    pub stored : Condition
    pub found : m.find cs c.type ≡ some stored
    pub same : SameFacts stored (at_generation gen c)

  pub set_conditions-Holds :
      (cs want : List Condition)
      → distinct want ≡ true
      → (c : Condition) → Memᴰ c want
      → Holds (set_conditions m cs gen want) c
  unfolding set_conditions distinct
  set_conditions-Holds cs [] h c i = elim i [ ]
  set_conditions-Holds cs (d ∷ want) h c i = elim (Memᴰ.cases_cons i) [
    | inl e ↦
        let (x, f, s) = law.find-set_self cs (at_generation gen d) in
        subst (Holds (set_conditions m (m.set cs (at_generation gen d)) gen want)) (sym e) (record {
          stored = x;
          found =
              find-set_conditions_ne (m.set cs (at_generation gen d)) want d.type (ground arith)
              ∙ f;
          same = s;
        })
    | inr below ↦ set_conditions-Holds (m.set cs (at_generation gen d)) want (ground arith) c below
  ]

  -- Merging what is there changes nothing.
  set_conditions-same :
      (cs want : List Condition)
      → ((c : Condition) → Memᴰ c want → Holds cs c)
      → set_conditions m cs gen want ≡ cs
  unfolding set_conditions
  set_conditions-same cs [] h = refl
  set_conditions-same cs (c ∷ want) h =
      let x = h c (Memᴰ.head refl) in
      let e = law.set_same cs (at_generation gen c) x.stored x.found x.same in
      ap (λ ds. set_conditions m ds gen want) e
      ∙ set_conditions-same cs want (λ d i. h d (Memᴰ.tail i))

  -- Merging the same conditions twice is merging them once, times of transition included, so that a
  -- pass that finds nothing new writes nothing.
  pub set_conditions_idem :
      (cs want : List Condition)
      → distinct want ≡ true
      → set_conditions m (set_conditions m cs gen want) gen want ≡ set_conditions m cs gen want
  set_conditions_idem cs want h =
      set_conditions-same (set_conditions m cs gen want) want (set_conditions-Holds cs want h)
