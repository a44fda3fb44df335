-- ===== src/Base/Trim.antt =====
-- Cutting texts: slices from the start, strings.Trim and strings.TrimRight, with their lengths in
-- bytes. A slice takes whole characters; the code slices ASCII texts, or makes the cut valid UTF-8.
use Prim.Native.Nat.{ℕ, ◌-◌, ◌≤◌, compare as compare_ℕ, Ordering}
use Prim.Native.Char.{Char, code, len_utf8}
use Prim.Native.String.{String, [], ◌∷◌, len, slice, fits, ◌++◌}
use Prim.Native.String.len
use Prim.Native.String.slice
use Prim.Native.String.compare
use mathlib.Core.Path.{◌≡◌, refl, sym, subst, ap, ◌∙◌}
use mathlib.Core.Bool.{Bool, true, false, ◌&&◌, not}
use mathlib.Core.Logic.{◌≢◌, inl, inr}
use native.Mathlib.Omega.{arith}
use text.Mathlib.Text.{◌==◌}
use text.Mathlib.TextPositions.{eq_refl}
use text.Mathlib.TextLemmas.{cons-append, nil-append}
use odoo_k8_operator.Base.Chars.{all_chars}
use odoo_k8_operator.Base.Tests.{if◌then◌else◌, Bool-cases}

le_of_compare : (a b : ℕ) → compare_ℕ a b ≢ Ordering.gt → a ≤ b
le_of_compare a b h = ground arith

-- A character and a rest fit where the character is no longer than the bound.
fits-le :
    (o : Ordering) (c : Char) (rest : String) (b : ℕ)
    → (o ≢ Ordering.gt → len_utf8 c ≤ b)
    → len rest ≤ b - len_utf8 c
    → len (fits o c rest) ≤ b
fits-le Ordering.lt c rest b le h = omega (arith, len.cons c rest, le (λ e. cc))
fits-le Ordering.eq c rest b le h = omega (arith, len.cons c rest, le (λ e. cc))
fits-le Ordering.gt c rest b le h = omega arith

-- A slice of at most `b` bytes.
pub len-slice-le : (s : String) (b : ℕ) → len (slice s 0 b) ≤ b
len-slice-le [] b = subst (λ t. len t ≤ b) (sym (slice.nil 0 b)) (omega arith)
len-slice-le (c ∷ s) b =
    subst (λ t. len t ≤ b) (sym (slice.cons-zero c s b))
      (fits-le (compare_ℕ (len_utf8 c) b) c (slice s 0 (b - len_utf8 c)) b
        (le_of_compare (len_utf8 c) b) (len-slice-le s (b - len_utf8 c)))

module _ (cut : ℕ → Bool) where
  -- strings.TrimLeft
  pub trim_left : String → String
  trim_left [] = ""
  trim_left (c ∷ s) = let rest = trim_left s in if cut (code c) then rest else c ∷ s

  -- strings.TrimRight
  unfoldable pub trim_right : String → String
  trim_right [] = ""
  trim_right (c ∷ s) =
      let rest = trim_right s in if cut (code c) && (rest == "") then "" else c ∷ rest

  pub len-trim_left-le : (s : String) → len (trim_left s) ≤ len s
  unfolding trim_left
  len-trim_left-le [] = omega arith
  len-trim_left-le (c ∷ s) = ground (arith, len-trim_left-le s, len.cons c s)

  pub len-trim_right-le : (s : String) → len (trim_right s) ≤ len s
  unfolding trim_right
  len-trim_right-le [] = omega arith
  len-trim_right-le (c ∷ s) = elim (Bool-cases (cut (code c) && (trim_right s == ""))) [
    | inl e ↦ rw e (omega arith)
    | inr e ↦ rw e (omega (arith, len-trim_right-le s, len.cons c s, len.cons c (trim_right s)))
  ]

-- strings.Trim
unfoldable pub trim : (ℕ → Bool) → String → String
unfolding trim_left trim_right
trim cut s = trim_right cut (trim_left cut s)

pub len-trim-le : (cut : ℕ → Bool) (s : String) → len (trim cut s) ≤ len s
unfolding trim
len-trim-le cut s = omega (arith, len-trim_right-le cut (trim_left cut s), len-trim_left-le cut s)

-- None of the characters is in the text.
abbrev pub none_of : (ℕ → Bool) → String → Bool
none_of cut [] = true
none_of cut (c ∷ s) = not (cut (code c)) && none_of cut s

pub trim_left-none :
    (cut : ℕ → Bool) (c : Char) (s : String) → cut (code c) ≡ false → trim_left cut (c ∷ s) ≡ c ∷ s
unfolding trim_left
trim_left-none cut c s h = ground arith

trim_right-keep :
    (cut : ℕ → Bool) (c : Char) (s : String)
    → trim_right cut s ≡ s
    → (s == "") ≡ false
    → trim_right cut (c ∷ s) ≡ c ∷ s
unfolding trim_right
trim_right-keep cut c s h ne = rw h (rw ne (ground arith))

cons-ne-empty : (c : Char) (s : String) → (c ∷ s == "") ≡ false
cons-ne-empty c s = rw (compare.cons-nil c s) refl

append-ne-empty : (p s : String) → (s == "") ≡ false → (p ++ s == "") ≡ false
append-ne-empty [] s h = ap (λ t. t == "") (nil-append s) ∙ h
append-ne-empty (c ∷ p) s h = rw (cons-append c p s) (cons-ne-empty c (p ++ s))

-- What ends in a text that is not cut on the right is not cut there.
pub trim_right-append :
    (cut : ℕ → Bool) (p s : String)
    → trim_right cut s ≡ s
    → (s == "") ≡ false
    → trim_right cut (p ++ s) ≡ p ++ s
trim_right-append cut [] s h ne = rw (nil-append s) h
trim_right-append cut (c ∷ p) s h ne =
    rw (cons-append c p s)
      (trim_right-keep cut c (p ++ s) (trim_right-append cut p s h ne) (append-ne-empty p s ne))

-- A text with none of the characters is not cut.
pub trim_right-none : (cut : ℕ → Bool) (s : String) → none_of cut s ≡ true → trim_right cut s ≡ s
unfolding trim_right
trim_right-none cut [] h = refl
trim_right-none cut (c ∷ s) h = ground (arith, trim_right-none cut s)

pub trim-keeps :
    (cut : ℕ → Bool) (c : Char) (s : String)
    → cut (code c) ≡ false
    → trim_right cut (c ∷ s) ≡ c ∷ s
    → trim cut (c ∷ s) ≡ c ∷ s
unfolding trim
trim-keeps cut c s h e = ap (trim_right cut) (trim_left-none cut c s h) ∙ e

pub trim-none : (cut : ℕ → Bool) (s : String) → none_of cut s ≡ true → trim cut s ≡ s
unfolding trim trim_left trim_right
trim-none cut [] h = refl
trim-none cut (c ∷ s) h = trim-keeps cut c s (ground arith) (trim_right-none cut (c ∷ s) h)

pub none_of-append :
    (cut : ℕ → Bool) (s t : String)
    → none_of cut s ≡ true
    → none_of cut t ≡ true
    → none_of cut (s ++ t) ≡ true
none_of-append cut [] t h k = ap (none_of cut) (nil-append t) ∙ k
none_of-append cut (c ∷ s) t h k =
    ap (none_of cut) (cons-append c s t) ∙ ground (arith, none_of-append cut s t)

-- A text that goes on is not empty.
pub append-filled : (s t : String) → (s == "") ≡ false → (s ++ t == "") ≡ false
append-filled [] t h = absurd (ground (arith, eq_refl ""))
append-filled (c ∷ s) t h = rw (cons-append c s t) (cons-ne-empty c (s ++ t))

-- A label before a text with none of the characters is kept.
pub trim-label :
    (cut : ℕ → Bool) (c : Char) (p s : String)
    → cut (code c) ≡ false
    → none_of cut s ≡ true
    → (s == "") ≡ false
    → trim cut ((c ∷ p) ++ s) ≡ (c ∷ p) ++ s
trim-label cut c p s h solid named =
    let whole = trim_right-append cut (c ∷ p) s (trim_right-none cut s solid) named in
    let split = cons-append c p s in
    subst (λ t. trim cut t ≡ t) (sym split)
      (trim-keeps cut c (p ++ s) h (subst (λ t. trim_right cut t ≡ t) split whole))

-- Nothing is left exactly of a text of nothing else.
pub trim-blank : (cut : ℕ → Bool) (s : String) → (trim cut s == "") ≡ all_chars cut s
unfolding trim trim_left trim_right all_chars
trim-blank cut [] = eq_refl ""
trim-blank cut (c ∷ s) = elim (Bool-cases (cut (code c))) [
  | inl e ↦ rw e (trim-blank cut s)
  | inr e ↦ rw e (rw e (cons-ne-empty c (trim_right cut s)))
]
