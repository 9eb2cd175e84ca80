-- ===== src/Errors.antt =====
-- extract_service/errors.py, with the other exceptions that reach a handler: FastAPI's
-- `HTTPException`, sqlite's `IntegrityError` and the handlers' own Python errors.
use data_nexus.Prelude.{ℕ, String, Option, none, some, List}
use data_nexus.Models.Enums.{ErrorCode}

pub data ExtractError : Type 0 where
  validation : String → ExtractError
  entitlement_denied : List String → ExtractError
  unauthorized : ExtractError
  not_found : String → ExtractError
  idempotency_conflict : String → ExtractError
  rate_limited : ℕ → ExtractError
  http : ℕ → String → ExtractError
  integrity : String → ExtractError
  file_not_found : String → ExtractError
  assertion : ExtractError
  type_error : ExtractError
  overflow : ExtractError

-- The status of the response: `http_status` of the class, the status of an `HTTPException`, and
-- 500 from `_fallback_handler` for what is no `ExtractError`.
unfoldable pub http_status : ExtractError → ℕ
http_status (ExtractError.validation m) = 400
http_status (ExtractError.entitlement_denied funds) = 403
http_status ExtractError.unauthorized = 401
http_status (ExtractError.not_found m) = 404
http_status (ExtractError.idempotency_conflict e) = 409
http_status (ExtractError.rate_limited after) = 429
http_status (ExtractError.http status m) = status
http_status (ExtractError.integrity m) = 500
http_status (ExtractError.file_not_found m) = 500
http_status ExtractError.assertion = 500
http_status ExtractError.type_error = 500
http_status ExtractError.overflow = 500

-- `code` of the class, as the body of the response shows it; an `HTTPException` has none.
unfoldable pub error_code : ExtractError → Option ErrorCode
error_code (ExtractError.validation m) = some ErrorCode.validation_error
error_code (ExtractError.entitlement_denied funds) = some ErrorCode.entitlement_denied
error_code ExtractError.unauthorized = some ErrorCode.validation_error
error_code (ExtractError.not_found m) = some ErrorCode.validation_error
error_code (ExtractError.idempotency_conflict e) = some ErrorCode.validation_error
error_code (ExtractError.rate_limited after) = some ErrorCode.rate_limited
error_code (ExtractError.http status m) = none
error_code (ExtractError.integrity m) = some ErrorCode.internal_error
error_code (ExtractError.file_not_found m) = some ErrorCode.internal_error
error_code ExtractError.assertion = some ErrorCode.internal_error
error_code ExtractError.type_error = some ErrorCode.internal_error
error_code ExtractError.overflow = some ErrorCode.internal_error

-- The `Retry-After` header that `_extract_error_handler` sets.
unfoldable pub retry_after : ExtractError → Option ℕ
retry_after (ExtractError.rate_limited after) = some after
retry_after _ = none
