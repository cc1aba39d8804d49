-- ===== src/Logger/RequestId.antt =====
-- logger/logger.utils.ts: the id by which the lines and the errors of a request are found.
use program_capacity_invoice.Base.{
  String, ◌==◌, true, ◌≡◌, refl, ap, Option, none, some, if◌then◌else◌, arith,
}
use program_capacity_invoice.Base.Words.{is_text}
use program_capacity_invoice.Http.Request.{one, many, HeaderValue, Headers, Request}

-- `typeof header === 'string' && header.length > 0`
unfoldable pub text_header : Option HeaderValue → Option String
text_header none = none
text_header (some (many values)) = none
text_header (some (one text)) = if is_text text then some text else none

-- The early returns, by what is found in the two headers.
abbrev pub first_id : Option String → Option String → String → String
first_id (some request_id) correlation_id random = request_id
first_id none (some correlation_id) random = correlation_id
first_id none none random = random

-- `resolveIncomingRequestId`; the first argument is what `randomUUID()` returns.
unfoldable pub resolve_incoming_request_id : String → Headers → String
unfolding text_header
resolve_incoming_request_id random headers =
    first_id (text_header (headers "x-request-id")) (text_header (headers "x-correlation-id"))
      random

abbrev pub gen_req_id : String → Headers → String
gen_req_id = resolve_incoming_request_id

-- `attachRequestId`: the request with its id, and the response's `x-request-id` header.
unfoldable pub attach_request_id : String → Request → Request × String
unfolding resolve_incoming_request_id
attach_request_id random request =
    let request_id = resolve_incoming_request_id random request.headers in
    (record request { id = some request_id }, request_id)

-- The headers with one more.
abbrev pub with_header : String → HeaderValue → Headers → Headers
with_header name value headers key = if key == name then some value else headers key

text_header_lem :
    (header : Option HeaderValue) (id : String) → text_header header ≡ some id → is_text id ≡ true
unfolding text_header
text_header_lem none id h = absurd (cc h)
text_header_lem (some (many values)) id h = absurd (cc h)
text_header_lem (some (one text)) id h = ground arith

text_header_one : (id : String) → is_text id ≡ true → text_header (some (one id)) ≡ some id
unfolding text_header
text_header_one id h = rw h refl

-- Where a request's id comes from, in this order.
pub data Identifies (random : String) (headers : Headers) (id : String) : Type 0 where
  request_id : headers "x-request-id" ≡ some (one id) → Identifies random headers id
  correlation_id :
      text_header (headers "x-request-id") ≡ none
      → headers "x-correlation-id" ≡ some (one id)
      → Identifies random headers id
  minted :
      text_header (headers "x-request-id") ≡ none
      → text_header (headers "x-correlation-id") ≡ none
      → id ≡ random
      → Identifies random headers id

text_header-eq_some :
    (header : Option HeaderValue) (id : String)
    → text_header header ≡ some id
    → header ≡ some (one id)
unfolding text_header
text_header-eq_some none id h = absurd (cc h)
text_header-eq_some (some (many values)) id h = absurd (cc h)
text_header-eq_some (some (one text)) id h = ground arith

resolve-Identifies :
    (random : String) (headers : Headers)
    → is_text random ≡ true
    → Identifies random headers (resolve_incoming_request_id random headers)
      × (is_text (resolve_incoming_request_id random headers) ≡ true)
unfolding resolve_incoming_request_id
resolve-Identifies random headers h =
    by_headers (text_header (headers "x-request-id")) (text_header (headers "x-correlation-id"))
      refl refl
  where
    by_headers :
        (first second : Option String)
        → text_header (headers "x-request-id") ≡ first
        → text_header (headers "x-correlation-id") ≡ second
        → Identifies random headers (first_id first second random)
          × (is_text (first_id first second random) ≡ true)
    by_headers (some id) second is _ =
        (request_id (text_header-eq_some _ id is), text_header_lem (headers "x-request-id") id is)
    by_headers none (some id) absent is = (
      correlation_id absent (text_header-eq_some _ id is),
      text_header_lem (headers "x-correlation-id") id is,
    )
    by_headers none none absent missing = (minted absent missing refl, h)

-- The id of a request is its x-request-id header if that is a text that is not empty, else such an
-- x-correlation-id header, else the new uuid; the response repeats it; and a request that is sent on
-- with it as x-request-id has the same id, whatever else it has, if uuids are not empty.
pub attach_request_id-Identifies :
    (random later : String) (request sent_on : Request)
    → is_text random ≡ true
    → (id : String) × Identifies random request.headers id
      × (attach_request_id random request ≡ (record request { id = some id }, id))
      × (resolve_incoming_request_id later (with_header "x-request-id" (one id) sent_on.headers)
          ≡ id)
unfolding attach_request_id resolve_incoming_request_id
attach_request_id-Identifies random later request sent_on h =
    let id = resolve_incoming_request_id random request.headers in
    let (from, text) = resolve-Identifies random request.headers h in
    (
      id,
      from,
      refl,
      ap (λ found. first_id found (text_header (sent_on.headers "x-correlation-id")) later)
          (text_header_one id text),
    )
