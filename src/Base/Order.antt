-- ===== src/Base/Order.antt =====
-- The order of Go's `<` on strings.
use Prim.Native.String.{String, [], ◌∷◌, compare}
use Prim.Native.String.compare
use mathlib.Core.Path.{◌≡◌, ap}
use mathlib.Core.Logic.{◌⊎◌, inl, inr}
use mathlib.Core.Bool.{Bool, true, false}
use native.Mathlib.Omega.{arith}
use text.Mathlib.Text.{is_lt, ◌==◌}
use text.Mathlib.TextPositions.{compare_refl}

-- `s < t` of Go: the first differing character decides (UTF-8 keeps the order of code points).
infix 50 ◌<ˢ◌
abbrev pub ◌<ˢ◌ : String → String → Bool
s <ˢ t = is_lt (compare s t)

pub not-lt_self : (s : String) → (s <ˢ s) ≡ false
not-lt_self s = ap is_lt (compare_refl s)

-- Where two texts are not equal, one stands before the other.
pub lt_total : (s t : String) → (s == t) ≡ false → ((s <ˢ t) ≡ true) ⊎ ((t <ˢ s) ≡ true)
lt_total [] [] h = ground (arith, compare.nil-nil)
lt_total [] (d ∷ t) h = inl (ap is_lt (compare.nil-cons d t))
lt_total (c ∷ s) [] h = inr (ap is_lt (compare.nil-cons c s))
lt_total (c ∷ s) (d ∷ t) h =
    ground (arith, compare.cons-cons c d s t, compare.cons-cons d c t s, lt_total s t)

pub lt_trans : (s t u : String) → (s <ˢ t) ≡ true → (t <ˢ u) ≡ true → (s <ˢ u) ≡ true
lt_trans s [] [] h k = ground (arith, compare.nil-nil)
lt_trans s (d ∷ t) [] h k = ground (arith, compare.cons-nil d t)
lt_trans [] t (e ∷ u) h k = ap is_lt (compare.nil-cons e u)
lt_trans (c ∷ s) [] (e ∷ u) h k = ground (arith, compare.cons-nil c s)
lt_trans (c ∷ s) (d ∷ t) (e ∷ u) h k = ground (
  arith,
  compare.cons-cons c d s t,
  compare.cons-cons d e t u,
  compare.cons-cons c e s u,
  lt_trans s t u,
)

pub lt_asymm : (s t : String) → (s <ˢ t) ≡ true → (t <ˢ s) ≡ false
lt_asymm s t h = ground (arith, lt_trans s t s, not-lt_self s)
