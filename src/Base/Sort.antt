-- ===== src/Base/Sort.antt =====
-- slices.Sort and slices.Compact on texts. The result of a sort of texts does not depend on how it
-- is done: here the texts are put in their places one by one.
use Prim.Native.String.{String}
use mathlib.Core.Path.{◌≡◌, refl, ap, ◌∙◌}
use mathlib.Core.Logic.{inl, inr}
use mathlib.Core.Bool.{Bool, true, false, ◌||◌}
use mathlib.Core.List.{List, [], ◌∷◌, Permᴰ}
use native.Mathlib.Omega.{arith}
use text.Mathlib.Text.{◌==◌}
use text.Mathlib.TextEquality.{eq_iff}
use odoo_k8_operator.Base.Tests.{if◌then◌else◌, Bool-cases}
use odoo_k8_operator.Base.Lists.{any}
use odoo_k8_operator.Base.Order.{◌<ˢ◌, lt_total, lt_trans, lt_asymm}

pub insert : String → List String → List String
insert x [] = x ∷ []
insert x (y ∷ ys) = let rest = insert x ys in if y <ˢ x then y ∷ rest else x ∷ y ∷ ys

unfoldable pub sort : List String → List String
unfolding insert
sort [] = []
sort (x ∷ xs) = insert x (sort xs)

-- Two texts of which neither is before the other are equal.
eq_of_not_lt : (x y : String) → (x <ˢ y) ≡ false → (y <ˢ x) ≡ false → x ≡ y
eq_of_not_lt x y h k = elim (Bool-cases (x == y)) [
  | inl e ↦ (eq_iff x y).0 e
  | inr e ↦ elim (lt_total x y e) [ inl l ↦ absurd (ground arith) | inr l ↦ absurd (ground arith) ]
]

insert_comm : (x y : String) (zs : List String) → insert x (insert y zs) ≡ insert y (insert x zs)
unfolding insert
insert_comm x y [] = ground (arith, eq_of_not_lt x y, lt_asymm x y)
insert_comm x y (z ∷ zs) = ground (
  arith,
  eq_of_not_lt x y,
  lt_asymm x y,
  lt_asymm y x,
  lt_trans x y z,
  lt_trans y x z,
  lt_trans z x y,
  lt_trans z y x,
  insert_comm x y zs,
)

-- The order in which the texts come does not matter.
pub sort-perm : {xs ys : List String} → Permᴰ xs ys → sort xs ≡ sort ys
unfolding sort
sort-perm Permᴰ.nil = refl
sort-perm (Permᴰ.cons {a} {b} {l₁ = xs} {l₂ = ys} e p) = rw e (ap (insert b) (sort-perm p))
sort-perm (Permᴰ.swap {a} {b} {a'} {b'} {l} e f) = rw e (rw f (insert_comm b' a' (sort l)))
sort-perm (Permᴰ.trans p q) = sort-perm p ∙ sort-perm q

any-insert :
    (p : String → Bool) (x : String) (ys : List String) → any p (insert x ys) ≡ (p x || any p ys)
unfolding insert
any-insert p x [] = refl
any-insert p x (y ∷ ys) = ground (arith, any-insert p x ys)

-- Sorting keeps what is in a list.
pub any-sort : (p : String → Bool) (xs : List String) → any p (sort xs) ≡ any p xs
unfolding sort
any-sort p [] = refl
any-sort p (x ∷ xs) = any-insert p x (sort xs) ∙ ap (λ t. p x || t) (any-sort p xs)

compact_from : String → List String → List String
compact_from x [] = []
compact_from x (y ∷ ys) = let rest = compact_from y ys in if x == y then rest else y ∷ rest

-- slices.Compact: one of each run of equal texts
unfoldable pub compact : List String → List String
unfolding compact_from
compact [] = []
compact (x ∷ xs) = x ∷ compact_from x xs

any-compact_from :
    (p : String → Bool) (x : String) (ys : List String)
    → (p x || any p (compact_from x ys)) ≡ (p x || any p ys)
unfolding compact_from
any-compact_from p x [] = refl
any-compact_from p x (y ∷ ys) = elim (Bool-cases (x == y)) [
  | inl e ↦
      rw e
        (let same : x ≡ y = (eq_iff x y).0 e in rw same (ground (arith, any-compact_from p y ys)))
  | inr e ↦ rw e (ap (λ t. p x || t) (any-compact_from p y ys))
]

-- So does leaving out repetitions.
pub any-compact : (p : String → Bool) (xs : List String) → any p (compact xs) ≡ any p xs
unfolding compact
any-compact p [] = refl
any-compact p (x ∷ xs) = any-compact_from p x xs

-- Strictly rising.
abbrev pub Rises : String → List String → Type 0
Rises x [] = Unit {0}
Rises x (y ∷ ys) = ((x <ˢ y) ≡ true) × Rises y ys

-- Rising, equal neighbours allowed.
abbrev IsSortedFrom : String → List String → Type 0
IsSortedFrom x [] = Unit {0}
IsSortedFrom x (y ∷ ys) = ((y <ˢ x) ≡ false) × IsSortedFrom y ys

abbrev IsSorted : List String → Type 0
IsSorted [] = Unit {0}
IsSorted (x ∷ xs) = IsSortedFrom x xs

insert-IsSortedFrom :
    (b x : String) (ys : List String)
    → (x <ˢ b) ≡ false
    → IsSortedFrom b ys
    → IsSortedFrom b (insert x ys)
unfolding insert
insert-IsSortedFrom b x [] h s = (h, tt)
insert-IsSortedFrom b x (y ∷ ys) h s = elim (Bool-cases (y <ˢ x)) [
  | inl l ↦ rw l (s.0, insert-IsSortedFrom y x ys (lt_asymm y x l) s.1)
  | inr l ↦ rw l (h, (l, s.1))
]

insert-IsSorted : (x : String) (ys : List String) → IsSorted ys → IsSorted (insert x ys)
unfolding insert
insert-IsSorted x [] s = tt
insert-IsSorted x (y ∷ ys) s = elim (Bool-cases (y <ˢ x)) [
  | inl l ↦ rw l (insert-IsSortedFrom y x ys (lt_asymm y x l) s)
  | inr l ↦ rw l (l, s)
]

sort-IsSorted : (xs : List String) → IsSorted (sort xs)
unfolding sort
sort-IsSorted [] = tt
sort-IsSorted (x ∷ xs) = insert-IsSorted x (sort xs) (sort-IsSorted xs)

-- The list rises strictly, so no text is in it twice.
abbrev pub IsRising : List String → Type 0
IsRising [] = Unit {0}
IsRising (x ∷ xs) = Rises x xs

compact_from-Rises :
    (x : String) (ys : List String) → IsSortedFrom x ys → Rises x (compact_from x ys)
unfolding compact_from
compact_from-Rises x [] s = tt
compact_from-Rises x (y ∷ ys) s = elim (Bool-cases (x == y)) [
  | inl e ↦ rw e (let same : x ≡ y = (eq_iff x y).0 e in rw same (compact_from-Rises y ys s.1))
  | inr e ↦ rw e (elim (lt_total x y e) [
    | inl l ↦ (l, compact_from-Rises y ys s.1)
    | inr l ↦ absurd (ground (arith, s.0))
  ])
]

pub compact-IsRising : (xs : List String) → IsRising (compact (sort xs))
unfolding compact
compact-IsRising xs = of_sorted (sort xs) (sort-IsSorted xs)
  where
    of_sorted : (ys : List String) → IsSorted ys → IsRising (compact ys)
    of_sorted [] s = tt
    of_sorted (y ∷ ys) s = compact_from-Rises y ys s
