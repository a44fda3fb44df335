-- ===== src/Queue/Order.antt =====
-- Queue order: objects of one namespace, which have different names, stand in one line.
use odoo_k8_operator.Base.{true, false, ◌≡◌, ◌⊎◌, ◌==◌, arith, not-lt_self, lt_total, lt_trans}
use odoo_k8_operator.Queue.{Queued, older}

module _ {ℓ} {A : Type ℓ} ⦃q : Queued A⦄ where
  pub not-older_self : (a : A) → older a a ≡ false
  unfolding older
  not-older_self a = ground (arith, not-lt_self (q.name a))

  pub older_total :
      (a b : A) → (q.name a == q.name b) ≡ false → (older a b ≡ true) ⊎ (older b a ≡ true)
  unfolding older
  older_total a b h = ground (arith, lt_total (q.name a) (q.name b) h)

  pub older_trans : (a b c : A) → older a b ≡ true → older b c ≡ true → older a c ≡ true
  unfolding older
  older_trans a b c h k = ground (arith, lt_trans (q.name a) (q.name b) (q.name c))

  pub older_asymm : (a b : A) → older a b ≡ true → older b a ≡ false
  older_asymm a b h = ground (arith, older_trans a b a h, not-older_self a)
