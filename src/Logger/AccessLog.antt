-- ===== src/Logger/AccessLog.antt =====
-- logger/logger.utils.ts and logger/logger.constants.ts: which requests are logged, at which level,
-- and what of a request and its response.
use program_capacity_invoice.Base.{
  ℕ, String, Bool, ◌||◌, Option, none, some, List, [], ◌∷◌, leb, if◌then◌else◌,
}
use program_capacity_invoice.Base.Words.{before}
use program_capacity_invoice.Errors.Filter.{includes}
use program_capacity_invoice.Http.Request.{Headers, HeaderValue}

-- IGNORED_ROUTES
abbrev pub ignored_routes : List String
ignored_routes =
    "/health" ∷ "/health/live" ∷ "/health/ready" ∷ "/healthz" ∷ "/ready" ∷ "/readiness"
    ∷ "/liveness" ∷ "/metrics" ∷ "/favicon.ico" ∷ []

-- SAFE_REQUEST_HEADER_KEYS
abbrev pub safe_request_header_keys : List String
safe_request_header_keys = "host" ∷ "user-agent" ∷ "x-request-id" ∷ "x-correlation-id" ∷ []

-- `stripQuery`
unfoldable pub strip_query : String → String
unfolding before
strip_query url = before "?" url

unfoldable pub is_ignored_route : String → Bool
unfolding strip_query
is_ignored_route url = includes ignored_routes (strip_query url)

-- LevelWithSilent
pub data LogLevel : Type 0 where
  fatal error warn info debug trace silent : LogLevel

-- `customLogLevel`, by whether there is an error, and the response's status.
unfoldable pub custom_log_level : Bool → ℕ → LogLevel
custom_log_level err status_code =
    if err || leb 500 status_code then error else if leb 400 status_code then warn else info

-- The loop over the safe keys.
unfoldable pub safe_headers : Headers → List String → List (String × HeaderValue)
safe_headers headers [] = []
safe_headers headers (key ∷ keys) =
    let rest = safe_headers headers keys in
    elim (headers key) [ none ↦ rest | some value ↦ (key, value) ∷ rest ]

-- RequestWithExtras, as far as it is logged; query and parameters are any values.
pub record RequestWithExtras (V : Type 0) : Type 0 where
  pub id : Option String
  pub method : Option String
  pub url : Option String
  pub query : Option V
  pub params : Option V
  pub headers : Headers
  pub remote_address : Option String

pub record SerializedRequest (V : Type 0) : Type 0 where
  pub id : Option String
  pub method : Option String
  pub url : Option String
  pub query : Option V
  pub params : Option V
  pub headers : List (String × HeaderValue)
  pub remote_address : Option String

unfoldable pub request_serializer : {V : Type 0} → RequestWithExtras V → SerializedRequest V
unfolding safe_headers
request_serializer req = record {
  id = req.id;
  method = req.method;
  url = req.url;
  query = req.query;
  params = req.params;
  headers = safe_headers req.headers safe_request_header_keys;
  remote_address = req.remote_address;
}

-- `responseSerializer`: the status, and nothing else.
pub record SerializedResponse : Type 0 where
  pub status_code : ℕ

unfoldable pub response_serializer : ℕ → SerializedResponse
response_serializer status_code = record { status_code = status_code }
