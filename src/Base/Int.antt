-- ===== src/Base/Int.antt =====
-- Signed machine integers (int32, int64), as the integers that they stand for.
use Prim.Native.Nat.{ℕ, suc}
use Prim.Native.String.{String}
use mathlib.Core.Bool.{Bool, true, false}
use odoo_k8_operator.Base.Tests.{leb, ltb}
use odoo_k8_operator.Base.Text.{decimal, ◌⧺◌}

-- `negsuc n` is -(n + 1).
pub data ℤ : Type 0 where
  pos : ℕ → ℤ
  negsuc : ℕ → ℤ

infix 50 ◌<ℤ◌ ◌≤ℤ◌
abbrev pub ◌≤ℤ◌ : ℤ → ℤ → Bool
pos a ≤ℤ pos b = leb a b
pos a ≤ℤ negsuc b = false
negsuc a ≤ℤ pos b = true
negsuc a ≤ℤ negsuc b = leb b a

abbrev pub ◌<ℤ◌ : ℤ → ℤ → Bool
pos a <ℤ pos b = ltb a b
pos a <ℤ negsuc b = false
negsuc a <ℤ pos b = true
negsuc a <ℤ negsuc b = ltb b a

-- %d
unfoldable pub signed : ℤ → String
signed (pos n) = decimal n
signed (negsuc n) = "-" ⧺ decimal (suc n)
