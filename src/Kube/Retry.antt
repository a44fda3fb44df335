-- ===== src/Kube/Retry.antt =====
-- A status write under retry.RetryOnConflict of client-go. The operator's closure reads the object
-- afresh, decides what to write, and hands it to Status().Update. The answers of the API server are
-- arguments: one `Exchange` to each run of the closure. `again` is client-go's test whether the
-- closure runs once more after an error; it also stops when its attempts are used up, which is the
-- end of the list.
pub mod Laws
use odoo_k8_operator.Base.{Bool, true, false, Option, none, some, List, [], ◌∷◌, if◌then◌else◌}
use odoo_k8_operator.Kube.{
  ApiError, Reply, got, refused, not_found, already_exists, conflict, invalid, failed,
}
use odoo_k8_operator.Errors.{Error, api}

pub record Exchange {ℓ} (A : Type ℓ) : Type ℓ where
  pub read : Reply A
  pub update : Option ApiError

-- What one run of the closure comes to: the object that was read and the one stored in its place.
pub data Attempt {ℓ} (A : Type ℓ) : Type ℓ where
  unchanged : Attempt A
  stored : A → A → Attempt A
  error : ApiError → Attempt A

pub record Write {ℓ} (A : Type ℓ) : Type ℓ where
  pub written : Option (A × A)
  pub error : Option Error

-- client.IgnoreNotFound
abbrev pub ignore_not_found : ApiError → Option Error
ignore_not_found (not_found t) = none
ignore_not_found (already_exists t) = some (api (already_exists t))
ignore_not_found (conflict t) = some (api (conflict t))
ignore_not_found (invalid t) = some (api (invalid t))
ignore_not_found (failed t) = some (api (failed t))

abbrev pub is_not_found : ApiError → Bool
is_not_found (not_found t) = true
is_not_found _ = false

abbrev pub is_already_exists : ApiError → Bool
is_already_exists (already_exists t) = true
is_already_exists _ = false

abbrev pub is_conflict : ApiError → Bool
is_conflict (conflict t) = true
is_conflict _ = false

abbrev pub is_invalid : ApiError → Bool
is_invalid (invalid t) = true
is_invalid _ = false

module _ {ℓ} {A : Type ℓ} where
  -- The Update of a decision, under the server's answer.
  unfoldable pub submit : A → Option A → Option ApiError → Attempt A
  submit cur none update = unchanged
  submit cur (some new) none = stored cur new
  submit cur (some new) (some e) = error e

  unfoldable pub attempt : (A → Option A) → Reply A → Option ApiError → Attempt A
  unfolding submit
  attempt decide (refused e) update = error e
  attempt decide (got cur) update = submit cur (decide cur) update

  -- Goes on to the rest only after an error that `again` admits, and while there is a rest.
  unfoldable pub settle : (ApiError → Bool) → Attempt A → Bool → Write A → Write A
  settle again unchanged more rest = record { written = none; error = none }
  settle again (stored cur new) more rest = record { written = some (cur, new); error = none }
  settle again (error e) false rest = record { written = none; error = ignore_not_found e }
  settle again (error e) true rest =
      if again e then rest else record { written = none; error = ignore_not_found e }

  abbrev pub is_cons : List (Exchange A) → Bool
  is_cons [] = false
  is_cons (x ∷ xs) = true

  unfoldable pub write_retrying : (ApiError → Bool) → (A → Option A) → List (Exchange A) → Write A
  unfolding attempt settle
  write_retrying again decide [] = record { written = none; error = none }
  write_retrying again decide (x ∷ xs) =
      let rest = write_retrying again decide xs in
      settle again (attempt decide x.read x.update) (is_cons xs) rest
