-- ===== src/Logger/Logged.antt =====
-- What the access log shows of a request's headers: `requestSerializer` of logger/logger.utils.ts.
use program_capacity_invoice.Base.{
  String, ◌==◌, eq_iff, ◌≡◌, refl, ap, Option, none, some, List, [], ◌∷◌, arith, if◌then◌else◌,
}
use program_capacity_invoice.Errors.Filter.{includes}
use program_capacity_invoice.Http.Request.{HeaderValue, Headers}
use program_capacity_invoice.Logger.AccessLog.{
  safe_headers, safe_request_header_keys, RequestWithExtras, request_serializer,
}

-- `headers[key]`
abbrev pub lookup : String → List (String × HeaderValue) → Option HeaderValue
lookup key [] = none
lookup key ((name, value) ∷ rest) = if name == key then some value else lookup key rest

safe_headers_lem :
    (headers : Headers) (keys : List String) (key : String)
    → lookup key (safe_headers headers keys) ≡ (if includes keys key then headers key else none)
unfolding safe_headers
safe_headers_lem headers [] key = refl
safe_headers_lem headers (k ∷ keys) key =
    by_header (headers k) refl (safe_headers_lem headers keys key)
  where
    by_header :
        (found : Option HeaderValue)
        → headers k ≡ found
        → lookup key (safe_headers headers keys) ≡ (if includes keys key then headers key else none)
        → lookup key (elim found [
          | none ↦ safe_headers headers keys
          | some value ↦ (k, value) ∷ safe_headers headers keys
        ])
          ≡ (if includes (k ∷ keys) key then headers key else none)
    by_header none is rest = ground (arith, eq_iff k key, ap headers)
    by_header (some value) is rest = ground (arith, eq_iff k key, ap headers)

-- Of a request's headers the log shows those with a safe name, unchanged, and no other, so that no
-- Authorization header and no cookie is logged.
pub request_serializer_lem :
    {V : Type 0} (req : RequestWithExtras V) (key : String)
    → (lookup key (request_serializer req).headers
        ≡ (if includes safe_request_header_keys key then req.headers key else none))
      × (lookup "authorization" (request_serializer req).headers ≡ none)
      × (lookup "cookie" (request_serializer req).headers ≡ none)
unfolding request_serializer
request_serializer_lem req key = (
  safe_headers_lem req.headers safe_request_header_keys key,
  safe_headers_lem req.headers safe_request_header_keys "authorization",
  safe_headers_lem req.headers safe_request_header_keys "cookie",
)
