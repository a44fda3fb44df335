-- ===== src/Base/Lines.antt =====
-- strings.Split at "\n", and the same with the line that a text begins in the middle of.
use Prim.Native.Nat.{ℕ}
use Prim.Native.Char.{Char, code}
use Prim.Native.String.{String}
use mathlib.Core.Path.{◌≡◌, refl, ap, ◌∙◌}
use mathlib.Core.Logic.{◌≢◌, inl, inr}
use mathlib.Core.Bool.{Bool, true, ◌&&◌, not}
use mathlib.Core.List.{List, [], ◌∷◌, ◌++◌}
use native.Mathlib.Omega.{arith}
use text.Mathlib.TextLemmas.{cons-append, nil-append}
use odoo_k8_operator.Base.Chars.{all_chars}
use odoo_k8_operator.Base.Lists.{all}
use odoo_k8_operator.Base.Tests.{◌=ℕ◌, if◌then◌else◌, Bool-cases}
use odoo_k8_operator.Base.Text.{◌⧺◌}

-- A character before the first of some lines.
put_in_front : Char → List String → List String
put_in_front c [] = String.◌∷◌ c "" ∷ []
put_in_front c (l ∷ ls) = String.◌∷◌ c l ∷ ls

unfoldable pub lines : String → List String
unfolding put_in_front
lines String.[] = "" ∷ []
lines (String.◌∷◌ c s) =
    let rest = lines s in if code c =ℕ 10 then "" ∷ rest else put_in_front c rest

-- No character ends a line.
abbrev pub one_line : String → Bool
one_line String.[] = true
one_line (String.◌∷◌ c s) = not (code c =ℕ 10) && one_line s

pub one_line-append :
    (s t : String) → one_line s ≡ true → one_line t ≡ true → one_line (s ⧺ t) ≡ true
one_line-append String.[] t h k = ap one_line (nil-append t) ∙ k
one_line-append (String.◌∷◌ c s) t h k =
    ap one_line (cons-append c s t) ∙ ground (arith, one_line-append s t)

pub lines-one_line : (s : String) → one_line s ≡ true → lines s ≡ s ∷ []
unfolding lines
lines-one_line String.[] h = refl
lines-one_line (String.◌∷◌ c s) h = ground (arith, lines-one_line s)

put_in_front-append :
    (c : Char) (xs ys zs : List String)
    → xs ≢ []
    → zs ≡ xs ++ ys
    → put_in_front c zs ≡ put_in_front c xs ++ ys
unfolding put_in_front
put_in_front-append c [] ys zs ne e = absurd (ne refl)
put_in_front-append c (x ∷ xs) ys zs ne e = rw e refl

lines-ne-nil : (s : String) → lines s ≢ []
unfolding lines put_in_front
lines-ne-nil String.[] e = cc
lines-ne-nil (String.◌∷◌ c s) e = ground (arith, lines-ne-nil s)

abbrev newline : Char
newline = "\n"

newline-append : (t : String) → "\n" ⧺ t ≡ String.◌∷◌ newline t
newline-append t = cons-append newline "" t ∙ ap (String.◌∷◌ newline) (nil-append t)

lines-newline : (t : String) → lines (String.◌∷◌ newline t) ≡ "" ∷ lines t
unfolding lines
lines-newline t = refl

-- A text cut at the end of one of its lines.
pub lines-append : (s t : String) → lines (s ⧺ "\n" ⧺ t) ≡ lines s ++ lines t
unfolding lines
lines-append String.[] t = ap lines (nil-append ("\n" ⧺ t) ∙ newline-append t) ∙ lines-newline t
lines-append (String.◌∷◌ c s) t =
    ap lines (cons-append c s ("\n" ⧺ t)) ∙ elim (Bool-cases (code c =ℕ 10)) [
      | inl e ↦ rw e (ap (λ ls. "" ∷ ls) (lines-append s t))
      | inr e ↦
          rw e (put_in_front-append c (lines s) (lines t) _ (lines-ne-nil s) (lines-append s t))
    ]

all-put_in_front :
    (p : ℕ → Bool) (c : Char) (ls : List String)
    → all (all_chars p) (put_in_front c ls) ≡ (p (code c) && all (all_chars p) ls)
unfolding put_in_front all_chars
all-put_in_front p c [] = ground arith
all-put_in_front p c (l ∷ ls) = ground arith

-- What holds of a line end and of the characters of each line holds of those of the text.
pub all-lines :
    (p : ℕ → Bool) (s : String) → p 10 ≡ true → all (all_chars p) (lines s) ≡ all_chars p s
unfolding lines all_chars
all-lines p String.[] h = refl
all-lines p (String.◌∷◌ c s) h = elim (Bool-cases (code c =ℕ 10)) [
  | inl e ↦ ground (arith, all-lines p s, h)
  | inr e ↦ rw e (all-put_in_front p c (lines s) ∙ ap (λ b. p (code c) && b) (all-lines p s h))
]
