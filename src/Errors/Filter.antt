-- ===== src/Errors/Filter.antt =====
-- common/errors/http-exception.filter.ts: every exception becomes a status and a body.
use Prim.Native.String
use program_capacity_invoice.Base.{
  ℕ, String, ◌==◌, Bool, false, ◌||◌, Option, none, some, List, [], ◌∷◌, Details, leb, eqb,
  if◌then◌else◌,
}
use program_capacity_invoice.Errors.Codes.{
  ErrorCode, unauthorized, forbidden, validation_error, reservation_not_found,
  invoice_already_reserved, treasury_message_already_processed, internal_error,
  error_code_http_status, Exception, app, prisma_known, http, plain_error, one, many, Payload,
  words_payload, object_payload,
}

-- ErrorResponseBody
pub record ErrorResponseBody : Type 0 where
  pub code : ErrorCode
  pub message : String
  pub details : Option Details
  pub request_id : Option String

pub record ErrorResponse : Type 0 where
  pub status : ℕ
  pub body : ErrorResponseBody

-- `target.includes(name)`
abbrev pub includes : List String → String → Bool
includes [] name = false
includes (x ∷ xs) name = x == name || includes xs name

-- `message.join('; ')`
abbrev pub join : List String → String
join [] = ""
join (x ∷ []) = x
join (x ∷ y ∷ rest) = String.◌++◌ x (String.◌++◌ "; " (join (y ∷ rest)))

unfoldable pub http_status_to_error_code : ℕ → ErrorCode
http_status_to_error_code status =
    if eqb status 401
    then unauthorized
    else if eqb status 403
    then forbidden
    else if eqb status 400
    then validation_error
    else if eqb status 404
    then reservation_not_found
    else internal_error

unfoldable pub from_code : ErrorCode → Option String → ErrorResponse
from_code code request_id = record {
  status = error_code_http_status code;
  body = record { code = code; message = "Conflict."; details = none; request_id = request_id };
}

-- The answer to what is no other kind of exception.
unfoldable pub unexpected : Option String → ErrorResponse
unexpected request_id = record {
  status = 500;
  body = record {
    code = internal_error;
    message = "An unexpected error occurred.";
    details = none;
    request_id = request_id;
  };
}

-- The message shown for an HTTP exception.
unfoldable pub payload_message : Payload → String → String
payload_message (words_payload words) own = words
payload_message (object_payload none details) own = own
payload_message (object_payload (some (one words)) details) own = words
payload_message (object_payload (some (many words)) details) own = join words

unfoldable pub payload_details : Payload → Option Details
payload_details (words_payload words) = none
payload_details (object_payload message details) = some details

-- The unique indexes by which a P2002 names a known conflict.
unfoldable pub resolve_unique : List String → Option String → ErrorResponse
unfolding from_code unexpected
resolve_unique target request_id =
    if includes target "invoiceId" || includes target "invoice_id"
    then from_code invoice_already_reserved request_id
    else if includes target "externalMessageId" || includes target "external_message_id"
    then from_code treasury_message_already_processed request_id
    else unexpected request_id

unfoldable pub resolve : Exception → Option String → ErrorResponse
unfolding resolve_unique payload_message payload_details http_status_to_error_code unexpected
resolve (app error) request_id = record {
  status = error.http_status;
  body = record {
    code = error.code;
    message = error.message;
    details = error.details;
    request_id = request_id;
  };
}
resolve (prisma_known code target) request_id =
    if code == "P2002"
    then resolve_unique (elim target [ none ↦ [] | some names ↦ names ]) request_id
    else unexpected request_id
resolve (http status payload own) request_id = record {
  status = status;
  body = record {
    code = http_status_to_error_code status;
    message = payload_message payload own;
    details = payload_details payload;
    request_id = request_id;
  };
}
resolve plain_error request_id = unexpected request_id

-- `status >= 500`: the exception is logged as unhandled.
unfoldable pub logs_unhandled : ErrorResponse → Bool
logs_unhandled response = leb 500 response.status
