-- ===== src/Http/Soundness.antt =====
-- Requests over HTTP are steps of the service, and keep what the service keeps.
use program_capacity_invoice.Base.Columns.{as_uuid}
use program_capacity_invoice.Base.{String, ◌≡◌, refl, sym, ◌∙◌, none, some, Date}
use mathlib.Core.Path.{subst}
use program_capacity_invoice.Errors.{Result, ok, fail}
use program_capacity_invoice.Store.{Program, Db, Tx, run}
use program_capacity_invoice.Store.Keeps.{Keeps, Keeps-throw, Keeps-bind, Keeps-run}
use program_capacity_invoice.Treasury.Consumer.{ConsumerState}
use program_capacity_invoice.Programs.Service as Programs
use program_capacity_invoice.Reservations.Repository as Rows
use program_capacity_invoice.Reservations.Service as Reservations
use program_capacity_invoice.Reservations.Creation.{CreateReservationRequest}
use program_capacity_invoice.Reservations.Creation as Creation
use program_capacity_invoice.Reservations.Release as Release
use program_capacity_invoice.System.Statements.{reads, find_program-Keeps}
use program_capacity_invoice.System.Reach.{
  env_at, Reach, next, create as create_step, release as release_step,
}
use program_capacity_invoice.System.Safety.{IsSound, Reach-IsSound}
use program_capacity_invoice.Http.Request.{Request}
use program_capacity_invoice.Http.Controllers.{
  Route, create, release, get_by_id, get_availability, live, ready, metadata, Content, handle, fmap,
  handle_create, handle_release, handle_get_by_id, handle_get_availability,
}
use program_capacity_invoice.Http.Server.{Site, pass_handler, pass_guards, serve}
use program_capacity_invoice.Logger.RequestId.{attach_request_id}

fmap_state : {A : Type 0} (f : A → Content) (r : Result A × Db) → (fmap f r).1 ≡ r.1
fmap_state f (ok a, db) = refl
fmap_state f (fail e, db) = refl

-- A read that keeps every state leaves the database alone.
read_state : {A : Type 0} (m : Tx A) (db : Db) → Keeps (λ d. db ≡ d) m → (run m db).1 ≡ db
read_state m db reads = sym (Keeps-run m db reads refl)

find_by_id-Keeps : (db : Db) (id : String) → Keeps (λ d. db ≡ d) (Reservations.find_by_id id)
unfolding Reservations.find_by_id Rows.find_by_id
find_by_id-Keeps db id = search reads depth 12

availability_of-Keeps : (db : Db) (p : Program) → Keeps (λ d. db ≡ d) (Programs.availability_of p)
unfolding Programs.availability_of
availability_of-Keeps db p = search reads depth 12

availability-Keeps : (db : Db) (id : String) → Keeps (λ d. db ≡ d) (Programs.get_availability id)
unfolding Programs.get_availability
availability-Keeps db id =
    Keeps-bind _ _ (find_program-Keeps (as_uuid id))
      (elim [ none ↦ Keeps-throw _ | some p ↦ availability_of-Keeps db p ])

module _ (site : Site) (now : Date) where
  -- What a request may do to the database.
  data Moves (db after : Db) : Type 0 where
    stays : after ≡ db → Moves db after
    creates :
        (dto : CreateReservationRequest)
        → after ≡ (Creation.create site.setting.decimals (env_at site.setting now) dto db).1
        → Moves db after
    releases :
        (id : String) → after ≡ (Release.release (env_at site.setting now) id db).1 → Moves db after

  handle-Moves :
      (route : Route site.pipes.Body) (db : Db)
      → Moves db
          (handle site.setting.decimals site.pipes
            (env_at site.setting now)
            site.database_up
            route
            db).1
  unfolding handle handle_create handle_release handle_get_by_id handle_get_availability
  handle-Moves live db = stays refl
  handle-Moves ready db = stays refl
  handle-Moves (create body) db = by_body (site.pipes.validate body)
    where
      by_body :
          (dto : Result CreateReservationRequest)
          → Moves db
              (handle_create site.setting.decimals site.pipes
                (env_at site.setting now)
                site.database_up
                dto
                db).1
      by_body (fail e) = stays refl
      by_body (ok dto) =
          creates dto
            (fmap_state _ (Creation.create site.setting.decimals (env_at site.setting now) dto db))
  handle-Moves (release id) db = by_id (site.pipes.parse_uuid id)
    where
      by_id :
          (parsed : Result String)
          → Moves db
              (handle_release site.setting.decimals site.pipes
                (env_at site.setting now)
                site.database_up
                parsed
                db).1
      by_id (fail e) = stays refl
      by_id (ok id) = releases id (fmap_state _ (Release.release (env_at site.setting now) id db))
  handle-Moves (get_by_id id) db = by_id (site.pipes.parse_uuid id)
    where
      by_id :
          (parsed : Result String)
          → Moves db
              (handle_get_by_id site.setting.decimals site.pipes
                (env_at site.setting now)
                site.database_up
                parsed
                db).1
      by_id (fail e) = stays refl
      by_id (ok id) = stays (
          fmap_state _ (run (Reservations.find_by_id id) db)
          ∙ read_state _ db (find_by_id-Keeps db id))
  handle-Moves (get_availability id) db = by_id (site.pipes.parse_uuid id)
    where
      by_id :
          (parsed : Result String)
          → Moves db
              (handle_get_availability site.setting.decimals site.pipes
                (env_at site.setting now)
                site.database_up
                parsed
                db).1
      by_id (fail e) = stays refl
      by_id (ok id) = stays (
          fmap_state _ (run (Programs.get_availability id) db)
          ∙ read_state _ db (availability-Keeps db id))

  serve-Moves :
      (route : Route site.pipes.Body) (random : String) (request : Request) (db : Db)
      → Moves db (serve site now route random request db).1
  unfolding serve pass_handler
  serve-Moves route random request db =
      by_guards (pass_guards site.jwt now (metadata route) (attach_request_id random request).0)
    where
      by_guards : (r : Result Request) → Moves db (pass_handler site now route r db).1
      by_guards (fail e) = stays refl
      by_guards (ok admitted) = handle-Moves route db

  -- What a request leaves is reached.
  Moves-Reach :
      (s t : ConsumerState) (after : Db)
      → Reach site.setting s t
      → Moves t.db after
      → Reach site.setting s (record t { db = after })
  Moves-Reach s t after r (stays same) =
      subst (λ d. Reach site.setting s (record t { db = d })) (sym same) r
  Moves-Reach s t after r (creates dto same) =
      subst (λ d. Reach site.setting s (record t { db = d })) (sym same)
        (next r (create_step now dto))
  Moves-Reach s t after r (releases id same) =
      subst (λ d. Reach site.setting s (record t { db = d })) (sym same)
        (next r (release_step now id))

-- What any request over HTTP leaves, whatever its route and its token, is a state that the service
-- reaches by its operations, and is sound where the service began in a sound state: programs agree
-- with their status, keys are unique, and amounts are positive.
pub serve-Reach :
    (site : Site) (now : Date) (route : Route site.pipes.Body) (random : String) (request : Request)
    (s t : ConsumerState)
    → Reach site.setting s t
    → IsSound s.db
    → Reach site.setting s (record t { db = (serve site now route random request t.db).1 })
      × IsSound (serve site now route random request t.db).1
serve-Reach site now route random request s t r h =
    let reached = Moves-Reach site now s t _ r (serve-Moves site now route random request t.db) in
    (reached, Reach-IsSound site.setting s _ reached h)
