-- ===== src/Http/Server.antt =====
-- A request on its way: the middleware of main.ts, the guards of auth/auth.module.ts in their order,
-- the handler, and the exception filter.
use program_capacity_invoice.Base.{String, Bool, true, false, Option, some, [], Date}
use program_capacity_invoice.Errors.{Exception, http, object_payload, one, Result, ok, fail}
use program_capacity_invoice.Errors.Filter.{ErrorResponse, resolve}
use program_capacity_invoice.Store.{Db}
use program_capacity_invoice.System.Reach.{Setting, env_at}
use program_capacity_invoice.Http.Request.{Request}
use program_capacity_invoice.Http.Controllers.{Pipes, Route, metadata, Content, handle}
use program_capacity_invoice.Auth.Guards.{
  JwtService, Metadata, jwt_can_activate, scopes_can_activate,
}
use program_capacity_invoice.Logger.RequestId.{attach_request_id}

-- What the HTTP server runs on, beside the setting of the service.
pub record Site : Type 1 where
  pub setting : Setting
  pub jwt : JwtService
  pub pipes : Pipes
  pub database_up : Bool

-- A guard that returns `false` (none of the service's does) is refused by NestJS.
abbrev pub refused : Exception
refused = http 403 (object_payload (some (one "Forbidden resource")) []) "Forbidden resource"

unfoldable pub pass_scopes : Request → Result Bool → Result Request
pass_scopes request (ok true) = ok request
pass_scopes request (ok false) = fail refused
pass_scopes request (fail e) = fail e

unfoldable pub pass_token : Metadata → Result (Bool × Request) → Result Request
unfolding pass_scopes scopes_can_activate
pass_token metadata (ok (true, request)) =
    pass_scopes request (scopes_can_activate metadata request)
pass_token metadata (ok (false, request)) = fail refused
pass_token metadata (fail e) = fail e

-- Both guards, the token's first.
unfoldable pub pass_guards : JwtService → Date → Metadata → Request → Result Request
unfolding pass_token jwt_can_activate
pass_guards jwt now metadata request =
    pass_token metadata (jwt_can_activate jwt now metadata request)

pub data Answer : Type 0 where
  success : Content → Answer
  error : ErrorResponse → Answer

-- The body of the response, and its `x-request-id` header.
pub record Response : Type 0 where
  pub answer : Answer
  pub request_id : String

unfoldable pub answer_of : Option String → Result Content → Answer
unfolding resolve
answer_of id (ok content) = success content
answer_of id (fail e) = error (resolve e id)

module _ (site : Site) (now : Date) (route : Route site.pipes.Body) where
  unfoldable pub pass_handler : Result Request → Db → Result Content × Db
  unfolding handle
  pass_handler (fail e) db = (fail e, db)
  pass_handler (ok request) db =
      handle site.setting.decimals site.pipes (env_at site.setting now) site.database_up route db

  -- The answer to a request, and the database after it; `random` is the uuid of `randomUUID()`.
  unfoldable pub serve : String → Request → Db → Response × Db
  unfolding attach_request_id pass_guards pass_handler metadata answer_of
  serve random request db =
      let (identified, request_id) = attach_request_id random request in
      let (result, after) =
        pass_handler (pass_guards site.jwt now (metadata route) identified) db in
      (record { answer = answer_of identified.id result; request_id = request_id }, after)
