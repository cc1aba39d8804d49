-- ===== src/Http/Answers.antt =====
-- What a request to a controller is answered with, and what it does to the database.
use program_capacity_invoice.Auth.Guards.{JwtPayload, other}
use program_capacity_invoice.Base.{String, ◌≡◌, ◌⊎◌, some, List, Date}
use program_capacity_invoice.Errors.{Result}
use program_capacity_invoice.Errors.Filter.{ErrorResponse}
use program_capacity_invoice.Store.{Db}
use program_capacity_invoice.System.Reach.{env_at}
use program_capacity_invoice.Http.Request.{many, Request}
use program_capacity_invoice.Http.Controllers.{Route, metadata, scopes, public, Content, handle}
use program_capacity_invoice.Http.Server.{Site, error, Response, answer_of, pass_handler}
use program_capacity_invoice.Http.Access.{Holds}

module _ (site : Site) (now : Date) (route : Route site.pipes.Body) where
  module _ (request : Request) (db : Db) where
    -- What has become of a request.
    pub data Outcome (response : Response) (after : Db) : Type 0 where
      open_route : metadata route ≡ public → after ≡ db → Outcome response after
      turned_away :
          (err : ErrorResponse)
          → response.answer ≡ error err
          → (err.status ≡ 401) ⊎ (err.status ≡ 403)
          → after ≡ db
          → Outcome response after
      not_read :
          (values : List String) (err : ErrorResponse)
          → request.headers "authorization" ≡ some (many values)
          → response.answer ≡ error err
          → err.status ≡ 500
          → after ≡ db
          → Outcome response after
      not_claimed :
          (token : String) (payload : JwtPayload) (err : ErrorResponse)
          → site.jwt.verify_async now token ≡ some payload
          → payload.scope ≡ some other
          → response.answer ≡ error err
          → err.status ≡ 500
          → after ≡ db
          → Outcome response after
      handled :
          (scope : String) (result : Result Content)
          → metadata route ≡ scopes scope
          → Holds site.jwt now request.headers scope
          → handle site.setting.decimals site.pipes
              (env_at site.setting now)
              site.database_up
              route
              db
            ≡ (result, after)
          → response.answer ≡ answer_of (some response.request_id) result
          → Outcome response after

    -- The answer once the guards have spoken.
    abbrev answered : String → Result Request → Response × Db
    answered id r =
        let (result, after) = pass_handler site now route r db in
        (record { answer = answer_of (some id) result; request_id = id }, after)
