-- ===== src/Base/Lists.antt =====
-- Lists measured by native numbers, Boolean searches that run, and predicates by recursion.
use Prim.Native.Nat.{ℕ, suc}
use mathlib.Core.Bool.{Bool, true, false, ◌&&◌, ◌||◌}
use mathlib.Core.Path.{◌≡◌, refl, ap, ◌∙◌}
use mathlib.Core.Logic.{◌⊎◌, inl, inr}
use mathlib.Core.List.{List, [], ◌∷◌, Memᴰ}
use odoo_k8_operator.Base.Tests.{if◌then◌else◌, Bool-cases}

module _ {ℓ} {A : Type ℓ} where
  abbrev pub length : List A → ℕ
  length [] = 0
  length (x ∷ xs) = suc (length xs)

  abbrev pub any : (A → Bool) → List A → Bool
  any p [] = false
  any p (x ∷ xs) = p x || any p xs

  abbrev pub all : (A → Bool) → List A → Bool
  all p [] = true
  all p (x ∷ xs) = p x && all p xs

  abbrev pub keep : (A → Bool) → List A → List A
  keep p [] = []
  keep p (x ∷ xs) = let rest = keep p xs in if p x then x ∷ rest else rest

  none_of_cons :
      (p : A → Bool) (y : A) (ys : List A)
      → p y ≡ false
      → ((x : A) → Memᴰ x ys → p x ≡ false)
      → (x : A) → Memᴰ x (y ∷ ys)
      → p x ≡ false
  none_of_cons p y ys e none x (Memᴰ.head h) = ap p h ∙ e
  none_of_cons p y ys e none x (Memᴰ.tail i) = none x i

  -- Something in a list passes a test, or nothing does.
  pub found_or_none :
      (p : A → Bool) (xs : List A)
      → ((x : A) × Memᴰ x xs × (p x ≡ true)) ⊎ ((x : A) → Memᴰ x xs → p x ≡ false)
  found_or_none p [] = inr (λ x i. elim i [ ])
  found_or_none p (y ∷ ys) = elim (Bool-cases (p y)) [
    | inl e ↦ inl (y, Memᴰ.head refl, e)
    | inr e ↦ elim (found_or_none p ys) [
      | inl (x, i, h) ↦ inl (x, Memᴰ.tail i, h)
      | inr none ↦ inr (λ x i. none_of_cons p y ys e none x i)
    ]
  ]
