-- ===== src/Tests/Logging.antt =====
-- The logger's theorems at concrete inputs.

use program_capacity_invoice.Base.{
  String, ◌==◌, true, ◌≡◌, refl, ◌↔◌, none, some, [], ◌∷◌, if◌then◌else◌,
}
use program_capacity_invoice.Errors.Filter.{includes}
use program_capacity_invoice.Http.Request.{one, Headers, Request}
use program_capacity_invoice.Logger.RequestId.{
  Identifies, resolve_incoming_request_id, attach_request_id, with_header,
  attach_request_id-Identifies,
}
use program_capacity_invoice.Logger.AccessLog.{
  ignored_routes, is_ignored_route, RequestWithExtras, request_serializer,
}
use program_capacity_invoice.Logger.Ignored.{Requests, is_ignored_route_lem}
use program_capacity_invoice.Logger.Logged.{lookup, request_serializer_lem}

abbrev sent : Headers
sent key =
    if key == "x-correlation-id"
    then some (one "c-1")
    else if key == "authorization"
    then some (one "Bearer abc")
    else if key == "host"
    then some (one "localhost")
    else none

abbrev request : Request
request = record { headers = sent; id = none; user = none }

abbrev bare : Request
bare = record { headers = λ key. none; id = none; user = none }

correlated : (attach_request_id "u-1" request).1 ≡ "c-1"
unfolding attach_request_id
correlated = refl

attach_request_id-Identifies_example :
    (id : String) × Identifies "u-1" sent id
    × (attach_request_id "u-1" request ≡ (record request { id = some id }, id))
    × (resolve_incoming_request_id "u-2" (with_header "x-request-id" (one id) bare.headers) ≡ id)
attach_request_id-Identifies_example = attach_request_id-Identifies "u-1" "u-2" request bare refl

ignored : is_ignored_route "/health/ready?verbose" ≡ true
unfolding is_ignored_route
ignored = refl

is_ignored_route_lem_example : (is_ignored_route "/health/ready?verbose" ≡ true) ↔ (
    (route : String) × (includes ignored_routes route ≡ true)
    × Requests "/health/ready?verbose" route)
is_ignored_route_lem_example = is_ignored_route_lem "/health/ready?verbose"

abbrev logged : RequestWithExtras String
logged = record {
  id = some "c-1";
  method = some "GET";
  url = some "/v1/programs/p0/availability";
  query = none;
  params = none;
  headers = sent;
  remote_address = some "::1";
}

only_host :
    (request_serializer logged).headers
    ≡ ("host", one "localhost") ∷ ("x-correlation-id", one "c-1") ∷ []
unfolding request_serializer
only_host = refl

request_serializer_lem_example :
    (lookup "host" (request_serializer logged).headers ≡ some (one "localhost"))
    × (lookup "authorization" (request_serializer logged).headers ≡ none)
    × (lookup "cookie" (request_serializer logged).headers ≡ none)
request_serializer_lem_example = request_serializer_lem logged "host"
