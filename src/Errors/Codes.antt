-- ===== src/Errors/Codes.antt =====
-- common/errors/error-codes.ts and app-error.ts. An `Exception` is what a request or a message can
-- throw; `plain_error` stands for the built-in errors (`RangeError`, `TypeError`, ...), and for a
-- statement that the database refuses through raw SQL.
use program_capacity_invoice.Base.{
  ℕ, String, Option, List, Details, JsNumber, integer, fraction, infinite, nan,
}
use program_capacity_invoice.Base.Int.{ℤ}

pub data ErrorCode : Type 0 where
  unauthorized forbidden validation_error : ErrorCode
  program_not_found program_not_active program_over_limit : ErrorCode
  reservation_not_found reservation_already_closed invalid_reservation_state : ErrorCode
  invoice_already_reserved invoice_already_processed insufficient_capacity : ErrorCode
  fx_rate_not_found unsupported_currency request_in_progress : ErrorCode
  treasury_message_already_processed treasury_message_stale : ErrorCode
  reconciliation_conflict internal_error : ErrorCode

-- ERROR_CODE_HTTP_STATUS
abbrev pub error_code_http_status : ErrorCode → ℕ
error_code_http_status unauthorized = 401
error_code_http_status forbidden = 403
error_code_http_status validation_error = 400
error_code_http_status program_not_found = 404
error_code_http_status program_not_active = 409
error_code_http_status program_over_limit = 409
error_code_http_status reservation_not_found = 404
error_code_http_status reservation_already_closed = 409
error_code_http_status invalid_reservation_state = 409
error_code_http_status invoice_already_reserved = 409
error_code_http_status invoice_already_processed = 409
error_code_http_status insufficient_capacity = 409
error_code_http_status fx_rate_not_found = 409
error_code_http_status unsupported_currency = 400
error_code_http_status request_in_progress = 409
error_code_http_status treasury_message_already_processed = 409
error_code_http_status treasury_message_stale = 409
error_code_http_status reconciliation_conflict = 409
error_code_http_status internal_error = 500

pub record AppError : Type 0 where
  pub code : ErrorCode
  pub http_status : ℕ
  pub message : String
  pub details : Option Details

-- `new AppError(code, message, details)`
abbrev pub app_error : ErrorCode → String → Option Details → AppError
app_error code message details = record {
  code = code;
  http_status = error_code_http_status code;
  message = message;
  details = details;
}

-- The `message` field of an HTTP exception's response object.
pub data Message : Type 0 where
  one : String → Message
  many : List String → Message

-- `HttpException.getResponse()`
pub data Payload : Type 0 where
  words_payload : String → Payload
  object_payload : Option Message → Details → Payload

pub data Exception : Type 0 where
  app : AppError → Exception
  -- a `PrismaClientKnownRequestError`: its code, and `meta.target` where that is an array
  prisma_known : String → Option (List String) → Exception
  -- an `HttpException`: status, response, and the exception's own message
  http : ℕ → Payload → String → Exception
  plain_error : Exception

pub data Result {ℓ} (A : Type ℓ) : Type ℓ where
  ok : A → Result A
  fail : Exception → Result A

-- `BigInt(value)` throws a RangeError at a number that is not an integer.
abbrev pub big_int : JsNumber → Result ℤ
big_int (integer n) = ok n
big_int fraction = fail plain_error
big_int infinite = fail plain_error
big_int nan = fail plain_error
