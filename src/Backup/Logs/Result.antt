-- ===== src/Backup/Logs/Result.antt =====
-- The scripts print the file list last, and the parser finds it there.
use text.Mathlib.TextLemmas.{cons-append, nil-append}
use odoo_k8_operator.Base.{
  ℕ, String, Bool, true, ◌⧺◌, [], ◌∷◌, some, ◌≡◌, refl, ap, ◌∙◌, one_line, none_of, arith,
}
use odoo_k8_operator.Backup.Logs.{cut_prefix}

pub cut_prefix-append : (p s : String) → cut_prefix p (p ⧺ s) ≡ some s
unfolding cut_prefix
cut_prefix-append String.[] s = ap some (nil-append s)
cut_prefix-append (String.◌∷◌ c p) s =
    ap (cut_prefix (String.◌∷◌ c p)) (cons-append c p s) ∙ ground (arith, cut_prefix-append p s)

-- A text without some character has no line break, if that is one of them.
pub none_of-one_line :
    (cut : ℕ → Bool) (s : String) → cut 10 ≡ true → none_of cut s ≡ true → one_line s ≡ true
none_of-one_line cut String.[] b h = refl
none_of-one_line cut (String.◌∷◌ c s) b h = ground (arith, none_of-one_line cut s)
