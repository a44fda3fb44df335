-- ===== src/Errors.antt =====
-- Errors of the reconcilers (internal/controller/conditions.go): reasonError, and what errors.As
-- finds of it in a chain of wrapped errors.
use odoo_k8_operator.Base.{String, ◌⧺◌, Option, none, some}
use odoo_k8_operator.Kube.{ApiError, not_found, already_exists, conflict, invalid, failed}
use odoo_k8_operator.Api.Reasons.{reason_reconcile_error}

pub data Error : Type 0 where
  -- errors.New, fmt.Errorf without %w
  text : String → Error
  -- An error that an API call returned.
  api : ApiError → Error
  -- fmt.Errorf with %w as the last verb
  wrap : String → Error → Error
  -- reasonError
  reasoned : String → Error → Error

-- What a call that may fail returns.
pub data Result {ℓ} (A : Type ℓ) : Type ℓ where
  ok : A → Result A
  err : Error → Result A

unfoldable pub api_text : ApiError → String
api_text (not_found t) = t
api_text (already_exists t) = t
api_text (conflict t) = t
api_text (invalid t) = t
api_text (failed t) = t

-- Error()
unfoldable pub error_text : Error → String
unfolding api_text
error_text (text t) = t
error_text (api e) = api_text e
error_text (wrap t e) = t ⧺ error_text e
error_text (reasoned r e) = error_text e

-- withReason; a nil error is `none`
unfoldable pub with_reason : String → Option Error → Option Error
with_reason reason none = none
with_reason reason (some e) = some (reasoned reason e)

-- reconcileErrorReason: the outermost reason of the chain
unfoldable pub reconcile_error_reason : Error → String
reconcile_error_reason (text t) = reason_reconcile_error
reconcile_error_reason (api e) = reason_reconcile_error
reconcile_error_reason (wrap t e) = reconcile_error_reason e
reconcile_error_reason (reasoned r e) = r
