-- ===== src/Kube/Retry/Laws.antt =====
-- What a retried write has stored was decided on an object that the server still held.
use odoo_k8_operator.Base.{
  Bool, Option, none, some, List, [], ◌∷◌, Memᴰ, ◌≡◌, refl, arith, ◌⊎◌, inl, inr,
}
use odoo_k8_operator.Kube.{ApiError, got}
use odoo_k8_operator.Kube.Retry.{
  Exchange, Attempt, stored, Write, attempt, settle, is_cons, write_retrying,
}

module _ {ℓ} {A : Type ℓ} (again : ApiError → Bool) (decide : A → Option A) where
  -- A run that stored something.
  pub record Accepted (x : Exchange A) (cur new : A) : Type ℓ where
    pub was_read : x.read ≡ got cur
    pub accepted : x.update ≡ none
    pub decided : decide cur ≡ some new

  attempt-stored :
      (x : Exchange A) (cur new : A)
      → attempt decide x.read x.update ≡ stored cur new
      → Accepted x cur new
  unfolding attempt
  attempt-stored x cur new h = ground arith

  settle-written :
      (a : Attempt A) (more : Bool) (rest : Write A) (cur new : A)
      → (settle again a more rest).written ≡ some (cur, new)
      → (a ≡ stored cur new) ⊎ (rest.written ≡ some (cur, new))
  unfolding settle
  settle-written a more rest cur new h = ground arith

  -- Whatever is stored in the end was decided on an object read in one of the runs, whose Update
  -- the server accepted.
  pub write_retrying-Accepted :
      (xs : List (Exchange A)) (cur new : A)
      → (write_retrying again decide xs).written ≡ some (cur, new)
      → (x : Exchange A) × Memᴰ x xs × Accepted x cur new
  unfolding write_retrying
  write_retrying-Accepted [] cur new h = cc
  write_retrying-Accepted (x ∷ xs) cur new h =
      elim (settle-written (attempt decide x.read x.update) (is_cons xs)
        (write_retrying again decide xs) cur new h) [
          | inl s ↦ (x, Memᴰ.head refl, attempt-stored x cur new s)
          | inr r ↦ let (y, i, a) = write_retrying-Accepted xs cur new r in (y, Memᴰ.tail i, a)
        ]
