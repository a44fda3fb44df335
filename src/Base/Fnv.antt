-- ===== src/Base/Fnv.antt =====
-- hash/fnv: the 32-bit FNV-1a hash, and the verb %08x. A name is ASCII, so its code points are its
-- bytes.
use Prim.Native.Nat.{ℕ, zero, suc, ◌*◌, ◌/◌, ◌%◌, ◌^◌, ◌<◌, bit_xor}
use Prim.Native.Char.{code}
use Prim.Native.String.{String, [], ◌∷◌, len}
use mathlib.Core.Path.{◌≡◌, refl}
use native.Mathlib.Omega.{arith}
use text.Mathlib.TextPositions.{len-append}
use odoo_k8_operator.Base.Text.{digit, ◌⧺◌}

fnv_from : ℕ → String → ℕ
fnv_from h [] = h
fnv_from h (c ∷ s) = fnv_from (bit_xor h (code c) * 16777619 % 2 ^ 32) s

unfoldable pub fnv32a : String → ℕ
unfolding fnv_from
fnv32a s = fnv_from 2166136261 s

-- The last `k` hexadecimal digits of a number.
hex : ℕ → ℕ → String
unfolding digit
hex zero n = ""
hex (suc k) n = hex k (n / 16) ⧺ digit (n % 16)

-- %08x of a 32-bit number
unfoldable pub hex8 : ℕ → String
unfolding hex
hex8 n = hex 8 n

fnv_test : hex8 (fnv32a "a") ≡ "e40c292c"
unfolding fnv32a hex8
fnv_test = refl

len-digit : (n : ℕ) → n < 16 → len (digit n) ≡ 1
unfolding digit
len-digit zero h = refl
len-digit (suc zero) h = refl
len-digit (suc (suc zero)) h = refl
len-digit (suc (suc (suc zero))) h = refl
len-digit (suc (suc (suc (suc zero)))) h = refl
len-digit (suc (suc (suc (suc (suc zero))))) h = refl
len-digit (suc (suc (suc (suc (suc (suc zero)))))) h = refl
len-digit (suc (suc (suc (suc (suc (suc (suc zero))))))) h = refl
len-digit (suc (suc (suc (suc (suc (suc (suc (suc zero)))))))) h = refl
len-digit (suc (suc (suc (suc (suc (suc (suc (suc (suc zero))))))))) h = refl
len-digit (suc (suc (suc (suc (suc (suc (suc (suc (suc (suc zero)))))))))) h = refl
len-digit (suc (suc (suc (suc (suc (suc (suc (suc (suc (suc (suc zero))))))))))) h = refl
len-digit (suc (suc (suc (suc (suc (suc (suc (suc (suc (suc (suc (suc zero)))))))))))) h = refl
len-digit (suc (suc (suc (suc (suc (suc (suc (suc (suc (suc (suc (suc (suc zero))))))))))))) h =
    refl
len-digit (suc (suc (suc (suc (suc (suc (suc (suc (suc (suc (suc (suc (suc (suc zero))))))))))))))
      h =
    refl
len-digit
      (suc (suc (suc (suc (suc (suc (suc (suc (suc (suc (suc (suc (suc (suc (suc zero)))))))))))))))
      h =
    refl
len-digit
      (suc
        (suc (suc (suc (suc (suc (suc (suc (suc (suc (suc (suc (suc (suc (suc (suc n))))))))))))))))
      h =
    absurd (omega arith)

len-hex : (k n : ℕ) → len (hex k n) ≡ k
unfolding hex
len-hex zero n = refl
len-hex (suc k) n = omega (
  arith,
  len-append (hex k (n / 16)) (digit (n % 16)),
  len-hex k (n / 16),
  len-digit (n % 16) (omega arith),
)

pub len-hex8 : (n : ℕ) → len (hex8 n) ≡ 8
unfolding hex8
len-hex8 n = len-hex 8 n
