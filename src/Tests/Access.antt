-- ===== src/Tests/Access.antt =====
-- Requests over HTTP on the test data.

use program_capacity_invoice.Base.{
  String, ◌==◌, true, ◌≡◌, refl, ◌↔◌, none, some, List, [], ◌∷◌, if◌then◌else◌,
}
use program_capacity_invoice.Base.Int.{pos}
use program_capacity_invoice.Base.Rows.{All}
use program_capacity_invoice.Base.Words.{join, lacks, lacks_lem}
use program_capacity_invoice.Errors.{ok}
use program_capacity_invoice.Reservations.Creation.{CreateReservationRequest}
use program_capacity_invoice.Auth.Guards.{JwtService, JwtPayload, worded, bearer_token, granted}
use program_capacity_invoice.Auth.Bearer.{IsBearer, bearer_token_lem}
use program_capacity_invoice.Auth.Granted.{IsScope, granted-join}
use program_capacity_invoice.Http.Request.{one, Request}
use program_capacity_invoice.Http.Controllers.{Pipes, Route, create, scopes}
use program_capacity_invoice.Http.Server.{Site, pass_guards, serve}
use program_capacity_invoice.Http.Access.{Holds, pass_guards_lem}
use program_capacity_invoice.Http.Soundness.{serve-Reach}
use program_capacity_invoice.System.Reach.{Reach, here}
use program_capacity_invoice.System.Safety.{IsSound}
use program_capacity_invoice.Tests.Fixtures.{db, request as dto, setting, state}
use program_capacity_invoice.Tests.Requests.{db-IsSound}

bearer_token_lem_example : (bearer_token "Bearer abc" ≡ some "abc") ↔ IsBearer "Bearer abc" "abc"
bearer_token_lem_example = bearer_token_lem "Bearer abc" "abc"

abbrev both : List String
both = "capacity:read" ∷ "capacity:write" ∷ []

both-IsScope : All IsScope both
unfolding lacks
both-IsScope = (
  record { nonempty = refl; word = lacks_lem " " "capacity:read" refl },
  (record { nonempty = refl; word = lacks_lem " " "capacity:write" refl }, tt),
)

granted-join_example :
    (granted none ≡ [])
    × All IsScope (granted (some " capacity:read "))
    × (granted (some (join " " both)) ≡ both)
granted-join_example = granted-join (some " capacity:read ") both both-IsScope

abbrev payload : JwtPayload
payload = record {
  sub = "u";
  scope = some (worded "capacity:read capacity:write");
  iat = pos 0;
  exp = pos 9000;
}

abbrev jwt : JwtService
jwt = record { verify_async = λ now token. if token == "abc" then some payload else none }

abbrev pipes : Pipes
pipes = record { Body = CreateReservationRequest; validate = ok; parse_uuid = ok }

abbrev site : Site
site = record { setting = setting; jwt = jwt; pipes = pipes; database_up = true }

abbrev request : Request
request = record {
  headers = λ key. if key == "authorization" then some (one "Bearer abc") else none;
  id = none;
  user = none;
}

pass_guards_lem_example :
    ((admitted : Request) × (pass_guards jwt (pos 5000) (scopes "capacity:write") request
        ≡ ok admitted))
    ↔ Holds jwt (pos 5000) request.headers "capacity:write"
pass_guards_lem_example = pass_guards_lem jwt (pos 5000) request "capacity:write"

abbrev body : Route CreateReservationRequest
body = create dto

serve-Reach_example :
    Reach setting state (record state { db = (serve site (pos 5000) body "u-1" request db).1 })
    × IsSound (serve site (pos 5000) body "u-1" request db).1
serve-Reach_example = serve-Reach site (pos 5000) body "u-1" request state state here db-IsSound
