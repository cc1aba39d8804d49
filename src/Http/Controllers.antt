-- ===== src/Http/Controllers.antt =====
-- reservations/reservations.controller.ts, programs/programs.controller.ts and
-- health/health.controller.ts: the routes, what their decorators ask for, and their handlers. The
-- pipes are parameters: class-validator checks the body, and `ParseUUIDPipe` the ids.
use program_capacity_invoice.Base.{String, Bool, true, false, none, some, [], ◌∷◌, words, nested}
use program_capacity_invoice.Errors.{Exception, http, object_payload, one, Result, ok, fail}
use program_capacity_invoice.Store.{Db, Env, run}
use program_capacity_invoice.Fx.Money.{DecimalJs}
use program_capacity_invoice.Programs.Service as Programs
use program_capacity_invoice.Reservations.Service as Reservations
use program_capacity_invoice.Reservations.Creation.{CreateReservationRequest, ReservationResponse}
use program_capacity_invoice.Reservations.Creation as Creation
use program_capacity_invoice.Reservations.Release.{ReleaseReservationResponse}
use program_capacity_invoice.Reservations.Release as Release
use program_capacity_invoice.Auth.Guards.{Metadata}

-- `ValidationPipe` on the body of a request, and `ParseUUIDPipe`.
pub record Pipes : Type 1 where
  pub Body : Type 0
  pub validate : Body → Result CreateReservationRequest
  pub parse_uuid : String → Result String

-- The routes, with their body or their id.
pub data Route (Body : Type 0) : Type 0 where
  create : Body → Route Body
  release : String → Route Body
  get_by_id : String → Route Body
  get_availability : String → Route Body
  live : Route Body
  ready : Route Body

-- `@Scopes(...)`
abbrev pub scopes : String → Metadata
scopes scope = record { is_public = none; scopes = some (scope ∷ []) }

-- `@Public()`
abbrev pub public : Metadata
public = record { is_public = some true; scopes = none }

unfoldable pub metadata : {Body : Type 0} → Route Body → Metadata
metadata (create _) = scopes "capacity:write"
metadata (release _) = scopes "capacity:write"
metadata (get_by_id _) = scopes "capacity:read"
metadata (get_availability _) = scopes "capacity:read"
metadata live = public
metadata ready = public

-- What a handler returns, as the body of the response.
pub data Content : Type 0 where
  reservation : ReservationResponse → Content
  released : ReleaseReservationResponse → Content
  detail : Reservations.ReservationDetailResponse → Content
  availability : Programs.ProgramAvailabilityResponse → Content
  alive : Content
  postgres_up : Content

-- `HealthController.ready`, by whether the database answers.
abbrev pub dependency_failed : Exception
dependency_failed =
    http 503
      (object_payload (some (one "Dependency check failed.")) (
        ("message", words "Dependency check failed.")
        ∷ ("dependencies", nested (("postgres", "down") ∷ []))
        ∷ []))
      "Dependency check failed."

unfoldable pub check_ready : Bool → Result Content
check_ready true = ok postgres_up
check_ready false = fail dependency_failed

abbrev pub fmap : {A : Type 0} → (A → Content) → Result A × Db → Result Content × Db
fmap f (ok a, db) = (ok (f a), db)
fmap f (fail e, db) = (fail e, db)

module _ (decimals : DecimalJs) (pipes : Pipes) (env : Env) (database_up : Bool) where
  -- The pipes run before the handler; a read has nothing to roll back.
  unfoldable pub handle_create : Result CreateReservationRequest → Db → Result Content × Db
  unfolding Creation.create
  handle_create (fail e) db = (fail e, db)
  handle_create (ok dto) db = fmap reservation (Creation.create decimals env dto db)

  unfoldable pub handle_release : Result String → Db → Result Content × Db
  unfolding Release.release
  handle_release (fail e) db = (fail e, db)
  handle_release (ok id) db = fmap released (Release.release env id db)

  unfoldable pub handle_get_by_id : Result String → Db → Result Content × Db
  unfolding Reservations.find_by_id
  handle_get_by_id (fail e) db = (fail e, db)
  handle_get_by_id (ok id) db = fmap detail (run (Reservations.find_by_id id) db)

  unfoldable pub handle_get_availability : Result String → Db → Result Content × Db
  unfolding Programs.get_availability
  handle_get_availability (fail e) db = (fail e, db)
  handle_get_availability (ok id) db = fmap availability (run (Programs.get_availability id) db)

  unfoldable pub handle : Route pipes.Body → Db → Result Content × Db
  unfolding handle_create handle_release handle_get_by_id handle_get_availability check_ready
  handle (create body) db = handle_create (pipes.validate body) db
  handle (release id) db = handle_release (pipes.parse_uuid id) db
  handle (get_by_id id) db = handle_get_by_id (pipes.parse_uuid id) db
  handle (get_availability id) db = handle_get_availability (pipes.parse_uuid id) db
  handle live db = (ok alive, db)
  handle ready db = (check_ready database_up, db)
